-- ===== src/Format/Examples.antt =====
-- Instances of the theorems on src/daemon/video_format.cpp.
use nmos_client.Base.{arith, [], ◌∷◌}
use nmos_client.Format.Desc.{VideoFormatDesc, x1080p5000, x1080i5994, x1080p6000, ntsc, make_desc}
use nmos_client.Format.Lookup.{get, get_max_audio_sample_num}
use nmos_client.Format.Find.{
  HasFormat, NamesFind, MonitorFinds, IsExact, monitor_target, get-HasFormat, get-NamesFind,
  get-MonitorFinds, get-IsExact,
}
use nmos_client.Format.Audio.{IsMaximum, get_max_audio_sample_num-IsMaximum}

get-HasFormat_example : HasFormat x1080p5000 (get x1080p5000)
get-HasFormat_example = get-HasFormat x1080p5000

get-NamesFind_example : NamesFind (get x1080i5994)
get-NamesFind_example = get-NamesFind x1080i5994

get-MonitorFinds_example : MonitorFinds (get x1080p6000) (get (monitor_target x1080p6000))
get-MonitorFinds_example = get-MonitorFinds x1080p6000

get-IsExact_example : IsExact (get x1080i5994)
get-IsExact_example = get-IsExact x1080i5994 (λ e. ground arith) (λ e. ground arith)

abbrev ntsc_desc : VideoFormatDesc
ntsc_desc = make_desc ntsc 2 720 486 720 540 60000 1001 "NTSC" "NTSC" "NTSC" (801 ∷ 800 ∷ 802 ∷ [])

get_max_audio_sample_num-IsMaximum_example :
    IsMaximum (get_max_audio_sample_num ntsc_desc) (801 ∷ 800 ∷ 802 ∷ [])
unfolding make_desc
get_max_audio_sample_num-IsMaximum_example = get_max_audio_sample_num-IsMaximum ntsc_desc
