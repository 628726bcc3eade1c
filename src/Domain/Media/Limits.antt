-- ===== src/Domain/Media/Limits.antt =====
-- The probes that the limits admit, and what the machine widths contribute.
use g7mediabooster.Base.{◌*◌, ◌≤◌, ◌<◌, ◌≡◌, ok, u64_max, arith}
use g7mediabooster.Domain.Media.{
  ImageProbe, ImageLimits, validate_image, VideoProbe, VideoLimits, validate_video,
}

-- An image within every budget.
pub record ImageFits (l : ImageLimits) (p : ImageProbe) : Type 0 where
  pub encoded : p.byte_len ≤ l.max_bytes
  pub wide : 0 < p.width
  pub high : 0 < p.height
  pub framed : 0 < p.frames
  pub width_bounded : p.width ≤ l.max_dimension
  pub height_bounded : p.height ≤ l.max_dimension
  pub frame_bounded : p.width * p.height ≤ l.max_pixels
  pub frames_bounded : p.frames ≤ l.max_frames
  pub decoded_bounded : p.width * p.height * p.frames ≤ l.max_animated_pixels

-- An image is accepted exactly when it is within every budget on its own: the encoded bytes, each
-- dimension, the pixels of a frame, the frames, and the pixels of all frames together. The budget
-- for those is a `u64`, so the checked product never refuses an image within it.
pub validate_image-ImageFits :
    (l : ImageLimits) (p : ImageProbe)
    → l.max_animated_pixels ≤ u64_max
    → (ImageFits l p → validate_image l p ≡ ok tt) × (validate_image l p ≡ ok tt → ImageFits l p)
unfolding validate_image
validate_image-ImageFits l p b = (λ f. ground arith, λ h. ground arith)

-- A video within every budget.
pub record VideoFits (l : VideoLimits) (p : VideoProbe) : Type 0 where
  pub some_bytes : 0 < p.byte_len
  pub encoded : p.byte_len ≤ l.max_bytes
  pub some_duration : 0 < p.duration_ms
  pub short : p.duration_ms ≤ l.max_duration_ms
  pub wide : 0 < p.width
  pub high : 0 < p.height
  pub width_bounded : p.width ≤ l.max_dimension
  pub height_bounded : p.height ≤ l.max_dimension
  pub frame_bounded : p.width * p.height ≤ l.max_pixels
  pub one_video : p.video_streams ≡ 1
  pub some_stream : 0 < p.total_streams
  pub few_streams : p.total_streams ≤ l.max_streams

-- A video is accepted exactly when it is within every budget on its own and has one video stream.
pub validate_video-VideoFits :
    (l : VideoLimits) (p : VideoProbe)
    → (VideoFits l p → validate_video l p ≡ ok tt) × (validate_video l p ≡ ok tt → VideoFits l p)
unfolding validate_video
validate_video-VideoFits l p = (λ f. ground arith, λ h. ground arith)
