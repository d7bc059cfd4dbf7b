-- ===== src/Storage/Yaml/Saving.antt =====
-- Values that are saved in YAML files are saved at once, and read back.
use libreseed.Prelude.{
  ◌≡◌, ◌≢◌, ◌⊎◌, refl, true, none, some, List, [], ◌∷◌, Option-cases, arith, Result, ok, err, All,
  wrap_err, inl, inr,
}
use libreseed.Text.{Bytes, bytes_discrete}
use libreseed.GoMap.{lookup}
use libreseed.Storage.{
  Files, WriteError, no_parent_dir, no_temp_file, not_synced, not_closed, Env, Disk, put_temp,
}
use libreseed.Storage.Atomic.{
  Outcome, IsOldOrNew, IsSafe, call-IsSafe, write_temp-IsSafe, rename-Outcome, next_call-Outcome,
  clean_up-Outcome, put_temp-IsSame,
}
use libreseed.Storage.Yaml.{
  YamlOf, YamlError, not_saved, atomic_save, save_marshalled, save_yaml_file, load_yaml_file,
  parse_file, marshal_yaml, unmarshal_yaml,
}

module _ {D : Type 0} (env : Env D) (path : Bytes) (content : D) (files : Files D)
    (apart : path ≢ env.tmp) where
  atomic_save-Outcome :
      (d : Disk D)
      → IsSafe env path content 0o600 files apart d
      → Outcome env path content 0o600 files apart (atomic_save env path content d)
  unfolding atomic_save
  atomic_save-Outcome d s =
      let next = next_call-Outcome env path content 0o600 files apart in
      let sys = call-IsSafe env path content 0o600 files apart in
      next _ _ (sys no_parent_dir (λ f. f) d s.0 s) λ _ d1 s1.
        next _ _
          (sys no_temp_file (put_temp env env.empty 0o600) d1
            (put_temp-IsSame env path content 0o600 files env.empty 0o600 d1.files s1.0) s1)
          λ _ d2 s2. clean_up-Outcome env path content 0o600 files apart _ (
            next _ _ (write_temp-IsSafe env path content 0o600 files apart d2 s2) λ _ d3 s3.
              next _ _ (sys not_synced (λ f. f) d3 s3.0 s3) λ _ d4 s4.
                next _ _ (sys not_closed (λ f. f) d4 s4.0 s4)
                  λ _ d5 s5. rename-Outcome env path content 0o600 files apart d5 s5)

  pub saved-Outcome :
      Outcome env path content 0o600 files apart
        (atomic_save env path content (record { files = files; history = [] }))
  saved-Outcome = atomic_save-Outcome (record { files = files; history = [] }) (λ key n. refl, tt)

-- What is on the disk after each system call, and at the end, of a save.
module _ {V D : Type 0} (env : Env D) (yaml : YamlOf V D) (path : Bytes) (v : V)
    (files : Files D) where
  -- After an error nothing but the temporary file has changed; after a success the target holds
  -- the marshalled value with mode 0600, and there is no temporary file.
  unfoldable pub IsSaved : Result YamlError (Unit {0}) × Disk D → Type 0
  IsSaved (err e, d) =
      (key : Bytes)
      → key ≢ env.tmp
      → lookup bytes_discrete key d.files ≡ lookup bytes_discrete key files
  IsSaved (ok u, d) =
      (content : D) × (yaml.marshal v ≡ some content)
      × (lookup bytes_discrete path d.files ≡ some (record { content = content; mode = 0o600 }))
      × (lookup bytes_discrete env.tmp d.files ≡ none)

  -- After each system call the target holds its old file, or the whole new one.
  abbrev pub IsSteady : Files D → Type 0
  IsSteady now =
      (lookup bytes_discrete path now ≡ lookup bytes_discrete path files)
      ⊎ (content : D) × (yaml.marshal v ≡ some content)
        × (lookup bytes_discrete path now ≡ some (record { content = content; mode = 0o600 }))

  IsSteady-history :
      (content : D) (history : List (Files D))
      → yaml.marshal v ≡ some content
      → All (IsOldOrNew env path content 0o600 files) history
      → All IsSteady history
  IsSteady-history content [] e h = tt
  IsSteady-history content (now ∷ history) e h =
      let rest = IsSteady-history content history e h.1 in
      elim h.0.1 [ inl s ↦ (inl s, rest) | inr s ↦ (inr (content, e, s), rest) ]

  Outcome-IsSaved :
      (content : D) (apart : path ≢ env.tmp) (r : Result WriteError (Unit {0}) × Disk D)
      → yaml.marshal v ≡ some content
      → Outcome env path content 0o600 files apart r
      → IsSaved (wrap_err not_saved r.0, r.1) × All IsSteady r.1.history
  unfolding Outcome IsSaved
  Outcome-IsSaved content apart (ok u, d) e h =
      ((content, e, h.1, h.2), IsSteady-history content d.history e h.3)
  Outcome-IsSaved content apart (err f, d) e h = (h.0, IsSteady-history content d.history e h.1)

  save_marshalled-IsSaved :
      (marshalled : Result YamlError D)
      → path ≢ env.tmp
      → ((content : D) → marshalled ≡ ok content → yaml.marshal v ≡ some content)
      → IsSaved (save_marshalled env path files marshalled)
        × All IsSteady (save_marshalled env path files marshalled).1.history
  unfolding save_marshalled IsSaved
  save_marshalled-IsSaved (err e) apart h = (λ key n. refl, tt)
  save_marshalled-IsSaved (ok content) apart h =
      Outcome-IsSaved content apart _ (h content refl) (saved-Outcome env path content files apart)

  marshal_yaml-ok : (content : D) → marshal_yaml yaml v ≡ ok content → yaml.marshal v ≡ some content
  unfolding marshal_yaml
  marshal_yaml-ok content h = elim (Option-cases (yaml.marshal v)) [
    | inl e ↦ absurd (ground arith)
    | inr (d, e) ↦ ground arith
  ]

  -- If the temporary file is not the target, then after each system call of `SaveYAMLFile` the
  -- target holds its old file or the whole of the marshalled value. A success leaves the value at
  -- the target and no temporary file, and an error changes no file but the temporary one.
  pub save_yaml_file-IsSaved :
      path ≢ env.tmp
      → IsSaved (save_yaml_file env yaml path v files)
        × All IsSteady (save_yaml_file env yaml path v files).1.history
  unfolding save_yaml_file
  save_yaml_file-IsSaved apart = save_marshalled-IsSaved (marshal_yaml yaml v) apart marshal_yaml-ok

  load_saved :
      (r : Result YamlError (Unit {0}) × Disk D) (w : V)
      → ((content : D) → yaml.marshal v ≡ some content → yaml.unmarshal content w ≡ some v)
      → IsSaved r
      → r.0 ≡ ok tt
      → load_yaml_file yaml true true path w r.1.files ≡ ok v
  unfolding IsSaved load_yaml_file parse_file unmarshal_yaml
  load_saved (err e, d) w h s o = absurd (cc o)
  load_saved (ok u, d) w h (content, e, there, none_left) o =
      rw (there, h content e, parse_file, unmarshal_yaml) refl

  -- If the YAML library reads back what it writes, into the value `w` that is to be filled, and
  -- the temporary file is not the target, then `LoadYAMLFile` of a file that can be read returns
  -- what a successful `SaveYAMLFile` has saved.
  load_yaml_file-save :
      (w : V)
      → path ≢ env.tmp
      → ((content : D) → yaml.marshal v ≡ some content → yaml.unmarshal content w ≡ some v)
      → (save_yaml_file env yaml path v files).0 ≡ ok tt
      → load_yaml_file yaml true true path w (save_yaml_file env yaml path v files).1.files ≡ ok v
  load_yaml_file-save w apart h o =
      load_saved (save_yaml_file env yaml path v files) w h (save_yaml_file-IsSaved apart).0 o
