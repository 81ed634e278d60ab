-- ===== src/Format/Lookup.antt =====
-- The look-ups of src/daemon/video_format.cpp, each in a map that is built once from the table. An
-- enumerator is a key by its integer. `std::vector::at` throws past the end.
use nmos_client.Base.{
  ℕ, String, Option, none, some, List, [], ◌∷◌, Except, ok, err, ◌>>=◌, map, leb, get_elem?,
  if◌then◌else◌, nat_eq, string_eq,
}
use nmos_client.Base.Map.{find, emplace_all}
use nmos_client.Format.Desc.{VideoFmt, fmt_index, VideoFormatDesc, invalid}
use nmos_client.Format.Table.{format_descs}

-- video_format_desc::video_format_desc()
unfoldable pub default_desc : Except VideoFormatDesc
unfolding format_descs
default_desc = elim (get_elem? format_descs (fmt_index invalid)) [
  | none ↦ err "vector::_M_range_check"
  | some d ↦ ok d
]

abbrev pub format_entries : List VideoFormatDesc → List (ℕ × VideoFormatDesc)
format_entries = map (λ d. (fmt_index d.format, d))

unfoldable pub init_format_map : List (ℕ × VideoFormatDesc)
unfolding emplace_all format_descs
init_format_map = emplace_all [] (format_entries format_descs)

abbrev pub name_entries : List VideoFormatDesc → List (String × VideoFormatDesc)
name_entries [] = []
name_entries (d ∷ ds) =
    (d.name, d) ∷ (d.display_name, d) ∷ (d.monitor_mode_name, d) ∷ name_entries ds

unfoldable pub init_format_name_map : List (String × VideoFormatDesc)
unfolding emplace_all format_descs
init_format_name_map = emplace_all [] (name_entries format_descs)

abbrev pub monitor_entries : List VideoFormatDesc → List (String × VideoFormatDesc)
monitor_entries = map (λ d. (d.monitor_mode_name, d))

unfoldable pub init_format_monitor_mode_name_map : List (String × VideoFormatDesc)
unfolding emplace_all format_descs
init_format_monitor_mode_name_map = emplace_all [] (monitor_entries format_descs)

abbrev pub found_or : VideoFormatDesc → Option VideoFormatDesc → VideoFormatDesc
found_or invalid_instance none = invalid_instance
found_or invalid_instance (some d) = d

-- video_format_desc::get(video_fmt)
unfoldable pub get : VideoFmt → Except VideoFormatDesc
unfolding default_desc find init_format_map
get f = do
  invalid_instance ← default_desc
  ok (found_or invalid_instance (find (fmt_index f) init_format_map))

-- video_format_desc::get(const std::string &)
unfoldable pub get_by_name : String → Except VideoFormatDesc
unfolding default_desc find init_format_name_map
get_by_name name = do
  invalid_instance ← default_desc
  ok (found_or invalid_instance (find name init_format_name_map))

unfoldable pub get_by_monitor_mode_name : String → Except VideoFormatDesc
unfolding default_desc find init_format_monitor_mode_name_map
get_by_monitor_mode_name name = do
  invalid_instance ← default_desc
  ok (found_or invalid_instance (find name init_format_monitor_mode_name_map))

-- std::max_element over a list that starts with `m`: the first of the largest.
unfoldable pub max_element : ℕ → List ℕ → ℕ
max_element m [] = m
max_element m (x ∷ xs) = max_element (if leb x m then m else x) xs

abbrev pub largest : List ℕ → ℕ
largest [] = 0
largest (x ∷ xs) = max_element x xs

unfoldable pub get_max_audio_sample_num : VideoFormatDesc → ℕ
unfolding max_element
get_max_audio_sample_num d = largest d.audio_cadence
