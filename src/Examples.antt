-- ===== src/Examples.antt =====
-- Concrete inputs: each property that has hypotheses, applied where they hold.
mod Domains
mod Uploads
mod Sessions
mod Queues
mod Stores
mod Controls
mod Auths
mod Policies
mod Inventories
mod Lifecycles
mod Deliveries
mod Workers
