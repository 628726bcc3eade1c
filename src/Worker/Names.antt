-- ===== src/Worker/Names.antt =====
-- The names of derivatives: their keys, presets and files.
use g7mediabooster.Base.{
  ◌≡◌, refl, sym, ap, ◌++◌, Option, none, some, Result, ok, err, ◌>>◌, Bytes, codes,
}
use g7mediabooster.Domain.Keys.{ObjectKey, ObjectKeyError, new, validate_object_key}
use g7mediabooster.Ports.Chains.{ok_value}
use g7mediabooster.Worker.{WatermarkPolicy}
use g7mediabooster.Worker.Parts.{MediaFormat, mp4, quick_time, webm, video_master_extension}
use g7mediabooster.Worker.Derivatives.{preset_of, key_of}

-- A key that was made has the text that was asked for.
made_from :
    (text : Bytes) (key : ObjectKey) (r : Result ObjectKeyError (Unit {0}))
    → key_of (r >> ok (record { value = text })) ≡ ok key
    → key.value ≡ text
made_from text key (ok u) h = ap (λ (k : ObjectKey). k.value) (sym (ok_value h))
made_from text key (err e) h = cc

pub key_of-value : (text : Bytes) (key : ObjectKey) → key_of (new text) ≡ ok key → key.value ≡ text
unfolding new
key_of-value text key h = made_from text key (validate_object_key text) h

-- The preset of a watermark.
abbrev pub IsPreset : Option WatermarkPolicy → Bytes → Type 0
IsPreset none preset_id = preset_id ≡ codes "board-default-v1"
IsPreset (some mark) preset_id =
    preset_id
    ≡ codes "board-default-v1"
      ++ (codes "-wm-" ++ (mark.preset_revision ++ (codes "-" ++ mark.asset_sha256)))

pub preset_of-IsPreset :
    (watermark : Option WatermarkPolicy) → IsPreset watermark (preset_of watermark)
preset_of-IsPreset none = refl
preset_of-IsPreset (some mark) = refl

-- The file name of the master of a video.
abbrev pub IsMasterFile : MediaFormat → Bytes → Type 0
IsMasterFile mp4 file = file ≡ codes "master.mp4"
IsMasterFile quick_time file = file ≡ codes "master.mov"
IsMasterFile webm file = file ≡ codes "master.webm"
IsMasterFile _ file = ⊥

pub extension-IsMasterFile :
    (format : MediaFormat) (extension : Bytes)
    → video_master_extension format ≡ some extension
    → IsMasterFile format (codes "master." ++ extension)
extension-IsMasterFile mp4 extension h = cc
extension-IsMasterFile quick_time extension h = cc
extension-IsMasterFile webm extension h = cc
extension-IsMasterFile MediaFormat.jpeg extension h = cc
extension-IsMasterFile MediaFormat.png extension h = cc
extension-IsMasterFile MediaFormat.gif extension h = cc
extension-IsMasterFile MediaFormat.webp extension h = cc
extension-IsMasterFile MediaFormat.avif extension h = cc
extension-IsMasterFile MediaFormat.heif extension h = cc
