-- ===== src/Format/Table.antt =====
-- The table `format_descs` of src/daemon/video_format.cpp, in the order of the source. It is one
-- list there; here a list for each family of rasters, joined at the end.
use nmos_client.Base.{List, [], ◌∷◌, ◌++◌, ◌/◌}
use nmos_client.Format.Desc.{
  VideoFormatDesc, make_desc, pal, ntsc, x576p2500, x720p2500, x720p5000, x720p2398, x720p2400,
  x720p2997, x720p5994, x720p3000, x720p6000, x1080p2398, x1080p2400, x1080i5000, x1080i5994,
  x1080i6000, x1080p2500, x1080p2997, x1080p3000, x1080p5000, x1080p5994, x1080p6000, x1556p2398,
  x1556p2400, x1556p2500, x2160p2398, x2160p2400, x2160p2500, x2160p2997, x2160p3000, x2160p5000,
  x2160p5994, x2160p6000, invalid,
}

unfoldable pub sd_descs : List VideoFormatDesc
unfolding make_desc
sd_descs =
    make_desc pal 2 720 576 1024 576 50000 1000 "PAL" "PAL" "PAL" ((1920 / 2) ∷ [])
    ∷ make_desc ntsc 2 720 486 720 540 60000 1001 "NTSC" "NTSC" "NTSC"
        (801 ∷ 801 ∷ 801 ∷ 800 ∷ 801 ∷ 801 ∷ 801 ∷ 800 ∷ 801 ∷ 801 ∷ [])
    ∷ make_desc x576p2500 1 720 576 1024 576 25000 1000 "576p2500" "576p25" "1024x576 25"
        (1920 ∷ [])
    ∷ []

unfoldable pub hd_720_descs : List VideoFormatDesc
unfolding make_desc
hd_720_descs =
    make_desc x720p2398 1 1280 720 1280 720 24000 1001 "720p2398" "720p2398" "1280x720 23.98"
      (2002 ∷ [])
    ∷ make_desc x720p2400 1 1280 720 1280 720 24000 1000 "720p2400" "720p24" "1280x720 24"
        (2000 ∷ [])
    ∷ make_desc x720p2500 1 1280 720 1280 720 25000 1000 "720p2500" "720p25" "1280x720 25"
        (1920 ∷ [])
    ∷ make_desc x720p5000 1 1280 720 1280 720 50000 1000 "720p5000" "720p50" "1280x720 50"
        (960 ∷ [])
    ∷ make_desc x720p2997 1 1280 720 1280 720 30000 1001 "720p2997" "720p2997" "1280x720 29.97"
        (1602 ∷ 1601 ∷ 1602 ∷ 1601 ∷ 1602 ∷ [])
    ∷ make_desc x720p5994 1 1280 720 1280 720 60000 1001 "720p5994" "720p5994" "1280x720 59.94"
        (801 ∷ 800 ∷ 801 ∷ 801 ∷ 801 ∷ [])
    ∷ make_desc x720p3000 1 1280 720 1280 720 30000 1000 "720p3000" "720p30" "1280x720 30"
        (1600 ∷ [])
    ∷ make_desc x720p6000 1 1280 720 1280 720 60000 1000 "720p6000" "720p60" "1280x720 60"
        (800 ∷ [])
    ∷ []

unfoldable pub hd_1080_descs : List VideoFormatDesc
unfolding make_desc
hd_1080_descs =
    make_desc x1080p2398 1 1920 1080 1920 1080 24000 1001 "1080p2398" "1080p2398" "1920x1080 23.98"
      (2002 ∷ [])
    ∷ make_desc x1080p2400 1 1920 1080 1920 1080 24000 1000 "1080p2400" "1080p24" "1920x1080 24"
        (2000 ∷ [])
    ∷ make_desc x1080i5000 2 1920 1080 1920 1080 50000 1000 "1080i5000" "1080i50" "1920x1080 50i"
        ((1920 / 2) ∷ [])
    ∷ make_desc x1080i5994 2 1920 1080 1920 1080 60000 1001 "1080i5994" "1080i5994"
        "1920x1080 59.94i" (801 ∷ 801 ∷ 801 ∷ 800 ∷ 801 ∷ 801 ∷ 801 ∷ 800 ∷ 801 ∷ 801 ∷ [])
    ∷ make_desc x1080i6000 2 1920 1080 1920 1080 60000 1000 "1080i6000" "1080i60" "1920x1080 60"
        ((1600 / 2) ∷ [])
    ∷ make_desc x1080p2500 1 1920 1080 1920 1080 25000 1000 "1080p2500" "1080p25" "1920x1080 25"
        (1920 ∷ [])
    ∷ make_desc x1080p2997 1 1920 1080 1920 1080 30000 1001 "1080p2997" "1080p2997"
        "1920x1080 29.97" (1602 ∷ 1601 ∷ 1602 ∷ 1601 ∷ 1602 ∷ [])
    ∷ make_desc x1080p3000 1 1920 1080 1920 1080 30000 1000 "1080p3000" "1080p30" "1920x1080 30"
        (1600 ∷ [])
    ∷ make_desc x1080p5000 1 1920 1080 1920 1080 50000 1000 "1080p5000" "1080p50" "1920x1080 50"
        (960 ∷ [])
    ∷ make_desc x1080p5994 1 1920 1080 1920 1080 60000 1001 "1080p5994" "1080p5994"
        "1920x1080 59.94" (801 ∷ 800 ∷ 801 ∷ 801 ∷ 801 ∷ [])
    ∷ make_desc x1080p6000 1 1920 1080 1920 1080 60000 1000 "1080p6000" "1080p60" "1920x1080 60"
        (800 ∷ [])
    ∷ []

unfoldable pub film_1556_descs : List VideoFormatDesc
unfolding make_desc
film_1556_descs =
    make_desc x1556p2398 1 2048 1556 2048 1556 24000 1001 "1556p2398" "1556p2398" "2048x1556 23.98"
      (2002 ∷ [])
    ∷ make_desc x1556p2400 1 2048 1556 2048 1556 24000 1000 "1556p2400" "1556p24" "2048x1556 24"
        (2000 ∷ [])
    ∷ make_desc x1556p2500 1 2048 1556 2048 1556 25000 1000 "1556p2500" "1556p25" "2048x1556 25"
        (1920 ∷ [])
    ∷ []

unfoldable pub uhd_2160_descs : List VideoFormatDesc
unfolding make_desc
uhd_2160_descs =
    make_desc x2160p2398 1 3840 2160 3840 2160 24000 1001 "2160p2398" "2160p2398" "3840x2160 23.98"
      (2002 ∷ [])
    ∷ make_desc x2160p2400 1 3840 2160 3840 2160 24000 1000 "2160p2400" "2160p24" "3840x2160 24"
        (2000 ∷ [])
    ∷ make_desc x2160p2500 1 3840 2160 3840 2160 25000 1000 "2160p2500" "2160p25" "3840x2160 25"
        (1920 ∷ [])
    ∷ make_desc x2160p2997 1 3840 2160 3840 2160 30000 1001 "2160p2997" "2160p2997"
        "3840x2160 29.97" (1602 ∷ 1601 ∷ 1602 ∷ 1601 ∷ 1602 ∷ [])
    ∷ make_desc x2160p3000 1 3840 2160 3840 2160 30000 1000 "2160p3000" "2160p30" "3840x2160 30"
        (1600 ∷ [])
    ∷ make_desc x2160p5000 1 3840 2160 3840 2160 50000 1000 "2160p5000" "2160p50" "3840x2160 50"
        (960 ∷ [])
    ∷ make_desc x2160p5994 1 3840 2160 3840 2160 60000 1001 "2160p5994" "2160p5994"
        "3840x2160 59.94" (801 ∷ 800 ∷ 801 ∷ 801 ∷ 801 ∷ [])
    ∷ make_desc x2160p6000 1 3840 2160 3840 2160 60000 1000 "2160p6000" "2160p60" "3840x2160 60"
        (800 ∷ [])
    ∷ []

unfoldable pub invalid_descs : List VideoFormatDesc
unfolding make_desc
invalid_descs = make_desc invalid 1 0 0 0 0 1 1 "invalid" "invalid" "invalid" (1 ∷ []) ∷ []

unfoldable pub format_descs : List VideoFormatDesc
unfolding sd_descs hd_720_descs hd_1080_descs film_1556_descs uhd_2160_descs invalid_descs
format_descs =
    sd_descs
    ++ (hd_720_descs ++ (hd_1080_descs ++ (film_1556_descs ++ (uhd_2160_descs ++ invalid_descs))))
