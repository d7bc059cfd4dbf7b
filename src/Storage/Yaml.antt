-- ===== src/Storage/Yaml.antt =====
-- pkg/storage/metadata.go: values in YAML files. gopkg.in/yaml.v3 is a parameter; the system calls
-- are those of the atomic write, without the one that sets the permissions.
pub mod Saving
use libreseed.Prelude.{
  ℕ, ◌≡◌, Bool, true, false, Option, none, some, [], is_some, if◌then◌else◌, Result, ok, err,
  wrap_err,
}
use libreseed.Text.{Bytes, bytes_discrete}
use libreseed.GoMap.{lookup}
use libreseed.Storage.{
  File, Files, WriteError, no_parent_dir, no_temp_file, not_synced, not_closed, not_renamed, Env,
  Disk, M, ◌>>=◌, ◌>>◌, next_call, call, put_temp, write_temp, rename_temp, clean_up,
}

-- `unmarshal` fills the value that it is given, so that a field that the text leaves out keeps
-- what was there; `none` is an error.
pub record YamlOf (V D : Type 0) : Type 0 where
  pub marshal : V → Option D
  pub unmarshal : D → V → Option V

pub data YamlError : Type 0 where
  not_marshalled not_unmarshalled not_found not_accessed not_read : YamlError
  not_saved : WriteError → YamlError

-- `MarshalYAML` and `UnmarshalYAML`.
unfoldable pub marshal_yaml : {V D : Type 0} → YamlOf V D → V → Result YamlError D
marshal_yaml yaml v = elim (yaml.marshal v) [ none ↦ err not_marshalled | some d ↦ ok d ]

unfoldable pub unmarshal_yaml : {V D : Type 0} → YamlOf V D → D → V → Result YamlError V
unmarshal_yaml yaml d v = elim (yaml.unmarshal d v) [ none ↦ err not_unmarshalled | some w ↦ ok w ]

module _ {D : Type 0} (env : Env D) where
  -- `SaveYAMLFile` from the directory to the rename; `os.CreateTemp` makes a file of mode 0600.
  unfoldable pub atomic_save : Bytes → D → M D (Unit {0})
  atomic_save path content = do
    call env no_parent_dir (λ files. files)
    call env no_temp_file (put_temp env env.empty 0o600)
    λ d. clean_up env (
        (do
          write_temp env content
          call env not_synced (λ files. files)
          call env not_closed (λ files. files)
          call env not_renamed (rename_temp env path (record { content = content; mode = 0o600 })))
          d)

  -- `SaveYAMLFile` after marshalling.
  unfoldable pub save_marshalled :
      Bytes → Files D → Result YamlError D → Result YamlError (Unit {0}) × Disk D
  unfolding atomic_save next_call clean_up
  save_marshalled path files (err e) = (err e, record { files = files; history = [] })
  save_marshalled path files (ok content) =
      let (r, d) = atomic_save path content (record { files = files; history = [] }) in
      (wrap_err not_saved r, d)

  -- `SaveYAMLFile`: the disk after it, with what was on it after each system call.
  unfoldable pub save_yaml_file :
      {V : Type 0} → YamlOf V D → Bytes → V → Files D → Result YamlError (Unit {0}) × Disk D
  unfolding save_marshalled marshal_yaml
  save_yaml_file yaml path v files = save_marshalled path files (marshal_yaml yaml v)

unfoldable pub parse_file :
    {V D : Type 0} → YamlOf V D → Bool → Option (File D) → V → Result YamlError V
unfolding unmarshal_yaml
parse_file yaml readable none v = err not_found
parse_file yaml readable (some f) v =
    if readable then unmarshal_yaml yaml f.content v else err not_read

-- `LoadYAMLFile`: whether `os.Stat` can access the path, and `os.ReadFile` the file.
unfoldable pub load_yaml_file :
    {V D : Type 0} → YamlOf V D → Bool → Bool → Bytes → V → Files D → Result YamlError V
unfolding parse_file
load_yaml_file yaml accessible readable path v files =
    if accessible
    then parse_file yaml readable (lookup bytes_discrete path files) v
    else err not_accessed
