-- ===== src/Format/Find.antt =====
-- What the look-ups of src/daemon/video_format.cpp return for every enumerator and for the names of
-- every format.
use nmos_client.Base.{
  String, ◌≡◌, ◌≢◌, ◌*◌, ◌^◌, ◌<◌, refl, List, [], ◌∷◌, none, Except, ok, err, All, sum, length,
  string_eq, string_iff, arith, ◌>>=◌, >>=-ok,
}
use nmos_client.Base.Map.{find, find-emplace_all}
use nmos_client.Format.Desc.{VideoFmt, VideoFormatDesc, pal, count, invalid, x1080i6000, x1080p6000}
use nmos_client.Format.Table.{format_descs}
use nmos_client.Format.Lookup.{
  get, get_by_name, get_by_monitor_mode_name, init_format_name_map, name_entries, default_desc,
  found_or,
}

-- The enumerator of the format that `get` returns: `count` has no entry in the table.
abbrev pub stored : VideoFmt → VideoFmt
stored count = invalid
stored f = f

abbrev pub HasFormat : VideoFmt → Except VideoFormatDesc → Type 0
HasFormat f (ok d) = d.format ≡ f
HasFormat f (err e) = ⊥

-- `get` throws for no enumerator: it returns the entry whose format is that enumerator, and for
-- `count`, which the table does not have, the entry whose format is `invalid`.
pub get-HasFormat : (f : VideoFmt) → HasFormat (stored f) (get f)
unfolding get
get-HasFormat pal = refl
get-HasFormat _ = refl

-- Looking up the name or the display name of `d` returns `d` again.
abbrev pub NamesFind : Except VideoFormatDesc → Type 0
NamesFind (ok d) = (get_by_name d.name ≡ ok d) × (get_by_name d.display_name ≡ ok d)
NamesFind (err e) = ⊥

-- For every enumerator `get` returns a format, and `get_by_name` finds that same format both by its
-- name and by its display name.
pub get-NamesFind : (f : VideoFmt) → NamesFind (get f)
unfolding get get_by_name
get-NamesFind pal = (refl, refl)
get-NamesFind _ = (refl, refl)

-- 1080p6000 has the monitor mode name of 1080i6000, which stands before it in the table.
abbrev pub monitor_target : VideoFmt → VideoFmt
monitor_target x1080p6000 = x1080i6000
monitor_target f = f

abbrev pub MonitorFinds : Except VideoFormatDesc → Except VideoFormatDesc → Type 0
MonitorFinds (ok d) r = get_by_monitor_mode_name d.monitor_mode_name ≡ r
MonitorFinds (err e) r = ⊥

-- For every enumerator but x1080p6000, `get_by_monitor_mode_name` finds the format that `get` returns
-- by its monitor mode name; by the monitor mode name of x1080p6000 it finds the format of x1080i6000.
pub get-MonitorFinds : (f : VideoFmt) → MonitorFinds (get f) (get (monitor_target f))
unfolding get get_by_monitor_mode_name
get-MonitorFinds pal = refl
get-MonitorFinds _ = refl

-- A whole turn of the cadence, `length` frames of `duration / time_scale` seconds, takes as many
-- samples as the audio clock gives in that time; the frame's bytes fit an `int`.
abbrev pub IsExact : Except VideoFormatDesc → Type 0
IsExact (ok d) =
    sum d.audio_cadence * d.time_scale ≡ d.audio_sample_rate * d.duration * length d.audio_cadence
IsExact (err e) = ⊥

-- For every enumerator but `invalid` and `count`, the sum of the audio cadence of its format times
-- the time scale is the sample rate times the duration times the cadence's length: the cadence loses
-- and gains no sample.
pub get-IsExact : (f : VideoFmt) → f ≢ invalid → f ≢ count → IsExact (get f)
unfolding get
get-IsExact invalid h k = absurd (h refl)
get-IsExact count h k = absurd (k refl)
get-IsExact _ h k = refl

abbrev pub SizeFits : Except VideoFormatDesc → Type 0
SizeFits (ok d) = (d.size ≡ d.width * d.height * 4) × (d.size < 2 ^ 31)
SizeFits (err e) = ⊥

-- For every enumerator the size of the format that `get` returns is four bytes for each pixel and less
-- than 2 ^ 31, so the product in the constructor does not overflow an `int`.
pub get-SizeFits : (f : VideoFmt) → SizeFits (get f)
unfolding get
get-SizeFits pal = (refl, omega arith)
get-SizeFits _ = (refl, omega arith)

-- No format of the list has that name, display name or monitor mode name.
abbrev pub IsUnknown : String → List VideoFormatDesc → Type 0
IsUnknown s = All (λ d. (d.name ≢ s) × (d.display_name ≢ s) × (d.monitor_mode_name ≢ s))

find-name_entries :
    (s : String) (ds : List VideoFormatDesc) → IsUnknown s ds → find s (name_entries ds) ≡ none
unfolding find
find-name_entries s [] h = refl
find-name_entries s (d ∷ ds) h = ground (
  arith,
  string_iff d.name s,
  string_iff d.display_name s,
  string_iff d.monitor_mode_name s,
  find-name_entries s ds,
)

find-name_map : (s : String) → find s init_format_name_map ≡ find s (name_entries format_descs)
unfolding init_format_name_map find
find-name_map s = find-emplace_all s [] (name_entries format_descs)

get_by_name_lem :
    (s : String)
    → get_by_name s ≡ (
        default_desc >>= λ invalid_instance.
        ok (found_or invalid_instance (find s init_format_name_map)))
unfolding get_by_name
get_by_name_lem s = refl

default_desc-get : default_desc ≡ get invalid
unfolding default_desc get
default_desc-get = refl

-- For a text that is no name, display name or monitor mode name of a format in the table,
-- `get_by_name` returns the format that `get` returns for `invalid`.
pub get_by_name-unknown : (s : String) → IsUnknown s format_descs → get_by_name s ≡ get invalid
get_by_name-unknown s h =
    rw (get_by_name_lem s, find-name_map s, find-name_entries s format_descs h, default_desc-get)
      (>>=-ok (get invalid))
