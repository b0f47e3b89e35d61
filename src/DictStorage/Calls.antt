-- ===== src/DictStorage/Calls.antt =====
-- What each call on a dictionary of src/StyioExtern/ExternLib.cpp does to the map that it holds.
use styio.Prelude.{ℕ, ◌≡◌, refl, sym, ◌∙◌, none, some, List, Option-cases, inl, inr}
use styio.Prelude.Texts.{find_key, put_key}
use styio.DictStorage.{
  DictRuntimeImpl, DictBackendSpec, DictStorage, position, dict_find_pos, dict_set, release_at,
  dict_set_handle, dict_try_get, dict_after_clone, clone_dict_storage,
}
use styio.DictStorage.Position.{present}
use styio.DictStorage.Backends.{
  IsSupported, IsValid, backend_impl, find_by_impl-position, absent_key, reindexed_lem,
  set_by_impl-put_key,
}

module _ {A : Type 0} (specs : List DictBackendSpec) where
  -- Reading by either backend is looking the key up among the entries.
  pub dict_find_pos-position :
      (dict : DictStorage A) (key : List ℕ)
      → IsSupported specs dict.runtime_impl
      → IsValid dict
      → dict_find_pos specs dict key ≡ position dict.entries key
  unfolding dict_find_pos
  dict_find_pos-position dict key (spec, s) v =
      rw (dict_find_pos, s)
        (find_by_impl-position spec.impl dict key
          (sym (backend_impl specs dict.runtime_impl spec s)) v)

  pub dict_try_get-find_key :
      (dict : DictStorage A) (key : List ℕ)
      → IsSupported specs dict.runtime_impl
      → IsValid dict
      → dict_try_get specs dict key ≡ find_key dict.entries key
  unfolding dict_try_get
  dict_try_get-find_key dict key s v =
      let at = dict_find_pos-position dict key s v in
      elim (Option-cases (position dict.entries key)) [
        | inl e ↦ rw (dict_try_get, at, e) (rw (absent_key dict.entries key e) refl)
        | inr (i, e) ↦
            let (entry, read, found, inside, written) = present dict.entries key i e in
            rw (dict_try_get, at, e) (rw (read, found) refl)
      ]

  pub dict_set-put_key :
      (dict : DictStorage A) (key : List ℕ) (value : A)
      → IsSupported specs dict.runtime_impl
      → IsValid dict
      → let after = dict_set specs dict key value in
        (after.entries ≡ put_key dict.entries key value)
        × (after.runtime_impl ≡ dict.runtime_impl)
        × IsValid after
  unfolding dict_set
  dict_set-put_key dict key value (spec, s) v =
      let own = backend_impl specs dict.runtime_impl spec s in
      let (es, impl, valid) = set_by_impl-put_key spec.impl dict key value (sym own) v in
      rw (dict_set, s) (es, impl ∙ own, valid)

  -- A write of a handle to a well formed dictionary, on a backend that the build has, does what a
  -- write does, and releases the value that it replaces, once, and nothing where the key is new.
  pub dict_set_handle_lem :
      {S : Type 0} (release : A → S → S) (dict : DictStorage A) (key : List ℕ) (value : A) (s : S)
      → IsSupported specs dict.runtime_impl
      → IsValid dict
      → dict_set_handle specs release dict key value s ≡ (
        dict_set specs dict key value,
        elim (find_key dict.entries key) [ none ↦ s | some old ↦ release old s ],
      )
  unfolding dict_set_handle dict_set
  dict_set_handle_lem release dict key value s (spec, b) v =
      let at =
        find_by_impl-position spec.impl dict key (sym (backend_impl specs dict.runtime_impl spec b))
          v in
      elim (Option-cases (position dict.entries key)) [
        | inl e ↦
            rw (dict_set_handle, dict_set, b)
              (rw (release_at, at, e) (rw (absent_key dict.entries key e) refl))
        | inr (i, e) ↦
            let (entry, read, found, inside, written) = present dict.entries key i e in
            rw (dict_set_handle, dict_set, b) (rw (release_at, at, e) (rw (read, found) refl))
      ]

  -- A clone, to a backend that the build has, keeps the entries.
  pub clone_dict_storage_lem :
      (dict : DictStorage A) (impl : DictRuntimeImpl)
      → IsSupported specs impl
      → IsValid dict
      → let clone = clone_dict_storage specs dict impl in
        (clone.entries ≡ dict.entries) × (clone.runtime_impl ≡ impl) × IsValid clone
  unfolding clone_dict_storage dict_after_clone
  clone_dict_storage_lem dict impl (spec, s) v =
      rw (clone_dict_storage, dict_after_clone, s)
        (reindexed_lem spec.impl dict impl (backend_impl specs impl spec s) v)
