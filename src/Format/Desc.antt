-- ===== src/Format/Desc.antt =====
-- `enum class video_fmt` and `struct video_format_desc` of src/daemon/video_format.h, and the
-- constructor of src/daemon/video_format.cpp. `fps` and `framerate` are the quotient of `time_scale`
-- by `duration` as a double and as a boost::rational, and are not stored here.
use nmos_client.Base.{ℕ, ◌*◌, String, Bool, List, eqb}

pub data VideoFmt : Type 0 where
  pal ntsc x576p2500 x720p2500 x720p5000 x720p2398 x720p2400 x720p2997 x720p5994 x720p3000 x720p6000
        x1080p2398 x1080p2400 x1080i5000 x1080i5994 x1080i6000 x1080p2500 x1080p2997 x1080p3000
        x1080p5000 x1080p5994 x1080p6000 x1556p2398 x1556p2400 x1556p2500 x2160p2398 x2160p2400
        x2160p2500 x2160p2997 x2160p3000 x2160p5000 x2160p5994 x2160p6000 invalid count :
      VideoFmt

-- static_cast<int>(f)
abbrev pub fmt_index : VideoFmt → ℕ
fmt_index pal = 0
fmt_index ntsc = 1
fmt_index x576p2500 = 2
fmt_index x720p2500 = 3
fmt_index x720p5000 = 4
fmt_index x720p2398 = 5
fmt_index x720p2400 = 6
fmt_index x720p2997 = 7
fmt_index x720p5994 = 8
fmt_index x720p3000 = 9
fmt_index x720p6000 = 10
fmt_index x1080p2398 = 11
fmt_index x1080p2400 = 12
fmt_index x1080i5000 = 13
fmt_index x1080i5994 = 14
fmt_index x1080i6000 = 15
fmt_index x1080p2500 = 16
fmt_index x1080p2997 = 17
fmt_index x1080p3000 = 18
fmt_index x1080p5000 = 19
fmt_index x1080p5994 = 20
fmt_index x1080p6000 = 21
fmt_index x1556p2398 = 22
fmt_index x1556p2400 = 23
fmt_index x1556p2500 = 24
fmt_index x2160p2398 = 25
fmt_index x2160p2400 = 26
fmt_index x2160p2500 = 27
fmt_index x2160p2997 = 28
fmt_index x2160p3000 = 29
fmt_index x2160p5000 = 30
fmt_index x2160p5994 = 31
fmt_index x2160p6000 = 32
fmt_index invalid = 33
fmt_index count = 34

pub record VideoFormatDesc : Type 0 where
  pub format : VideoFmt
  pub width : ℕ
  pub height : ℕ
  pub square_width : ℕ
  pub square_height : ℕ
  pub field_count : ℕ
  pub time_scale : ℕ
  pub duration : ℕ
  pub size : ℕ
  pub name : String
  pub display_name : String
  pub monitor_mode_name : String
  pub audio_channels : ℕ
  pub audio_sample_rate : ℕ
  pub audio_samples : ℕ
  pub audio_cadence : List ℕ
  pub st30_frame_size : ℕ
  pub st30_fps : ℕ
  pub sample_num : ℕ

unfoldable pub make_desc :
    VideoFmt → ℕ → ℕ → ℕ → ℕ → ℕ → ℕ → ℕ → String → String → String → List ℕ → VideoFormatDesc
make_desc format field_count width height square_width square_height time_scale duration name
      display_name monitor_mode_name audio_cadence =
    record {
      format = format;
      width = width;
      height = height;
      square_width = square_width;
      square_height = square_height;
      field_count = field_count;
      time_scale = time_scale;
      duration = duration;
      size = width * height * 4;
      name = name;
      display_name = display_name;
      monitor_mode_name = monitor_mode_name;
      audio_channels = 2;
      audio_sample_rate = 48000;
      audio_samples = 0;
      audio_cadence = audio_cadence;
      st30_frame_size = 0;
      st30_fps = 0;
      sample_num = 0;
    }

unfoldable pub is_invalid : VideoFormatDesc → Bool
is_invalid d = eqb (fmt_index d.format) (fmt_index invalid)
