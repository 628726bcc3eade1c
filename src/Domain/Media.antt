-- ===== src/Domain/Media.antt =====
-- crates/g7mb-domain/src/lib.rs: the resource limits of images and videos, checked on what a
-- trusted probe reports. Widths, heights and counts are `u32`, lengths and pixels `u64`.
pub mod Limits
use g7mediabooster.Base.{
  ℕ, ◌*◌, Bool, ◌||◌, not, Result, ok, reject_if, ok_or, ◌>>=◌, ◌>>◌, ltb, ◌==◌, if◌then◌else◌,
  checked_mul,
}

pub record ImageProbe : Type 0 where
  pub byte_len : ℕ
  pub width : ℕ
  pub height : ℕ
  pub frames : ℕ

pub data ImageWorkClass : Type 0 where
  standard heavy : ImageWorkClass

unfoldable pub work_class : ImageProbe → ImageWorkClass
work_class p =
    let pixels = p.width * p.height in
    if ltb 16384 p.width || ltb 16384 p.height || ltb 100000000 pixels then heavy else standard

pub record ImageLimits : Type 0 where
  pub max_bytes : ℕ
  pub max_dimension : ℕ
  pub max_pixels : ℕ
  pub max_frames : ℕ
  pub max_animated_pixels : ℕ

-- `ImageLimits::default()`.
abbrev pub default_image_limits : ImageLimits
default_image_limits = record {
  max_bytes = 64 * 1024 * 1024;
  max_dimension = 32768;
  max_pixels = 200000000;
  max_frames = 300;
  max_animated_pixels = 500000000;
}

pub data ImagePolicyError : Type 0 where
  encoded_bytes zero_dimension_or_frame dimension pixels frames animated_pixels : ImagePolicyError

-- The product of two `u32` fits a `u64`.
unfoldable pub validate_image : ImageLimits → ImageProbe → Result ImagePolicyError (Unit {0})
validate_image l p = do
  reject_if (ltb l.max_bytes p.byte_len) encoded_bytes
  reject_if (p.width == 0 || p.height == 0 || p.frames == 0) zero_dimension_or_frame
  reject_if (ltb l.max_dimension p.width || ltb l.max_dimension p.height) dimension
  let frame_pixels = p.width * p.height
  reject_if (ltb l.max_pixels frame_pixels) pixels
  reject_if (ltb l.max_frames p.frames) frames
  total ← ok_or (checked_mul frame_pixels p.frames) animated_pixels
  reject_if (ltb l.max_animated_pixels total) animated_pixels
  ok tt

pub record VideoProbe : Type 0 where
  pub byte_len : ℕ
  pub duration_ms : ℕ
  pub width : ℕ
  pub height : ℕ
  pub video_streams : ℕ
  pub total_streams : ℕ

pub record VideoLimits : Type 0 where
  pub max_bytes : ℕ
  pub max_duration_ms : ℕ
  pub max_dimension : ℕ
  pub max_pixels : ℕ
  pub max_streams : ℕ

-- `VideoLimits::default()`.
abbrev pub default_video_limits : VideoLimits
default_video_limits = record {
  max_bytes = 5 * 1024 * 1024 * 1024;
  max_duration_ms = 6 * 60 * 60 * 1000;
  max_dimension = 8192;
  max_pixels = 40000000;
  max_streams = 8;
}

pub data VideoPolicyError : Type 0 where
  encoded_bytes duration dimension pixels streams : VideoPolicyError

unfoldable pub validate_video : VideoLimits → VideoProbe → Result VideoPolicyError (Unit {0})
validate_video l p = do
  reject_if (p.byte_len == 0 || ltb l.max_bytes p.byte_len) VideoPolicyError.encoded_bytes
  reject_if (p.duration_ms == 0 || ltb l.max_duration_ms p.duration_ms) duration
  reject_if (p.width == 0 || p.height == 0) VideoPolicyError.dimension
  reject_if (ltb l.max_dimension p.width || ltb l.max_dimension p.height) VideoPolicyError.dimension
  let frame_pixels = p.width * p.height
  reject_if (ltb l.max_pixels frame_pixels) VideoPolicyError.pixels
  reject_if
      (not (p.video_streams == 1) || p.total_streams == 0 || ltb l.max_streams p.total_streams)
      streams
  ok tt
