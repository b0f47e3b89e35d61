-- ===== src/DictStorage.antt =====
-- src/StyioExtern/ExternLib.cpp: the dictionaries of the runtime, `StyioDictStorage`, and their
-- two backends. The type of the values is a parameter, as in the templates. `index_by_key`, a hash
-- map, is an association list. The registry of backends is that of the build: the two macros that
-- enable them are parameters of it. A dictionary and a key are there: the null pointers that the
-- functions turn away are met by their callers.
pub mod Position
pub mod Backends
pub mod Calls
pub mod Histories
mod Tests
use mathlib.Core.Option
use styio.Prelude.{
  ℕ, zero, suc, ◌+◌, ◌-◌, Bool, true, false, Option, none, some, List, [], ◌∷◌, ◌++◌, length,
  get_elem?, set, ltb, leb, ◌&&◌, ◌||◌, map, if◌then◌else◌,
}
use styio.Prelude.Scan.{codes}
use styio.Prelude.Texts.{same_text, find_key, put_key}

pub data DictRuntimeImpl : Type 0 where
  ordered_hash linear : DictRuntimeImpl

pub record DictBackendSpec : Type 0 where
  pub impl : DictRuntimeImpl
  pub name : List ℕ
  pub aliases : List (List ℕ)

-- `kStyioDictBackendRegistry`, with the backends that the build enables
abbrev pub registry : Bool → Bool → List DictBackendSpec
registry has_ordered_hash has_linear =
    (if has_ordered_hash
      then record {
        impl = ordered_hash;
        name = codes "ordered-hash";
        aliases = codes "ordered_hash" ∷ codes "v2" ∷ [];
      }
        ∷ []
      else [])
    ++ (if has_linear
        then record { impl = linear; name = codes "linear"; aliases = codes "v1" ∷ [] } ∷ []
        else [])

abbrev pub same_impl : DictRuntimeImpl → DictRuntimeImpl → Bool
same_impl ordered_hash ordered_hash = true
same_impl linear linear = true
same_impl _ _ = false

unfoldable pub dict_backend_spec_by_impl :
    List DictBackendSpec → DictRuntimeImpl → Option DictBackendSpec
dict_backend_spec_by_impl [] impl = none
dict_backend_spec_by_impl (spec ∷ specs) impl =
    let later = dict_backend_spec_by_impl specs impl in
    if same_impl spec.impl impl then some spec else later

-- std::tolower in the C locale, on each byte
abbrev lower_ascii : ℕ → ℕ
lower_ascii ch = if leb b'A' ch && leb ch b'Z' then ch + 32 else ch

abbrev lower_ascii_copy : List ℕ → List ℕ
lower_ascii_copy = map lower_ascii

unfoldable pub is_alias : List ℕ → List (List ℕ) → Bool
is_alias needle [] = false
is_alias needle (alias ∷ aliases) = same_text needle alias || is_alias needle aliases

abbrev pub named : List ℕ → DictBackendSpec → Bool
named needle spec = same_text needle spec.name || is_alias needle spec.aliases

unfoldable pub spec_by_name : List DictBackendSpec → List ℕ → Option DictBackendSpec
unfolding is_alias
spec_by_name [] needle = none
spec_by_name (spec ∷ specs) needle =
    let later = spec_by_name specs needle in if named needle spec then some spec else later

unfoldable pub dict_backend_spec_by_name : List DictBackendSpec → List ℕ → Option DictBackendSpec
unfolding spec_by_name
dict_backend_spec_by_name specs [] = none
dict_backend_spec_by_name specs (c ∷ raw_name) =
    spec_by_name specs (lower_ascii_copy (c ∷ raw_name))

-- `current_dict_backend_spec`; the registry is not empty, so `none` stands for no case of the code.
abbrev pub current_dict_backend_spec :
    List DictBackendSpec → DictRuntimeImpl → Option DictBackendSpec
current_dict_backend_spec specs chosen = elim (dict_backend_spec_by_impl specs chosen) [
  | some spec ↦ some spec
  | none ↦ get_elem? specs 0
]

pub record DictStorage (A : Type 0) : Type 0 where
  pub runtime_impl : DictRuntimeImpl
  pub entries : List (List ℕ × A)
  pub index_by_key : List (List ℕ × ℕ)

module _ {A : Type 0} where
  -- The constructor, for a backend.
  abbrev pub new_dict : DictRuntimeImpl → DictStorage A
  new_dict impl = record { runtime_impl = impl; entries = []; index_by_key = [] }

  -- The first entry of a key, by the loop over the entries.
  unfoldable pub position : List (List ℕ × A) → List ℕ → Option ℕ
  position [] key = none
  position ((k, v) ∷ entries) key =
      let later = Option.map suc (position entries key) in if same_text k key then some 0 else later

  -- `it != end && it->second < entries.size()`
  abbrev pub indexed : DictStorage A → List ℕ → Option ℕ
  indexed dict key = elim (find_key dict.index_by_key key) [
    | none ↦ none
    | some pos ↦ if ltb pos (length dict.entries) then some pos else none
  ]

  abbrev pub find_by_impl : DictRuntimeImpl → DictStorage A → List ℕ → Option ℕ
  find_by_impl ordered_hash dict key = indexed dict key
  find_by_impl linear dict key = position dict.entries key

  abbrev pub write_at : DictStorage A → ℕ → A → DictStorage A
  write_at dict pos value = elim (get_elem? dict.entries pos) [
    | none ↦ dict
    | some entry ↦ record {
      runtime_impl = dict.runtime_impl;
      entries = set dict.entries pos (entry.0, value);
      index_by_key = dict.index_by_key;
    }
  ]

  abbrev pub append_by_impl : DictRuntimeImpl → DictStorage A → List ℕ → A → DictStorage A
  append_by_impl ordered_hash dict key value = record {
    runtime_impl = dict.runtime_impl;
    entries = dict.entries ++ (key, value) ∷ [];
    index_by_key = put_key dict.index_by_key key (length (dict.entries ++ (key, value) ∷ []) - 1);
  }
  append_by_impl linear dict key value = record {
    runtime_impl = dict.runtime_impl;
    entries = dict.entries ++ (key, value) ∷ [];
    index_by_key = dict.index_by_key;
  }

  abbrev pub set_by_impl : DictRuntimeImpl → DictStorage A → List ℕ → A → DictStorage A
  set_by_impl impl dict key value = elim (find_by_impl impl dict key) [
    | some pos ↦ write_at dict pos value
    | none ↦ append_by_impl impl dict key value
  ]

  -- The loop of `rebuild_dict_index` from the entry of index i on.
  unfoldable pub index_from : ℕ → List (List ℕ × A) → List (List ℕ × ℕ) → List (List ℕ × ℕ)
  index_from i [] index = index
  index_from i ((k, v) ∷ entries) index = index_from (suc i) entries (put_key index k i)

  abbrev pub reindexed : DictRuntimeImpl → DictStorage A → DictStorage A
  reindexed ordered_hash dict = record {
    runtime_impl = dict.runtime_impl;
    entries = dict.entries;
    index_by_key = index_from 0 dict.entries [];
  }
  reindexed linear dict = record {
    runtime_impl = dict.runtime_impl;
    entries = dict.entries;
    index_by_key = [];
  }

module _ {A : Type 0} (specs : List DictBackendSpec) where
  unfoldable pub dict_find_pos : DictStorage A → List ℕ → Option ℕ
  dict_find_pos dict key = elim (dict_backend_spec_by_impl specs dict.runtime_impl) [
    | none ↦ none
    | some backend ↦ find_by_impl backend.impl dict key
  ]

  unfoldable pub dict_set : DictStorage A → List ℕ → A → DictStorage A
  dict_set dict key value = elim (dict_backend_spec_by_impl specs dict.runtime_impl) [
    | none ↦ dict
    | some backend ↦ set_by_impl backend.impl dict key value
  ]

  -- `dict_set_handle`: the value that is replaced is released, by a change of a state `S`.
  abbrev pub release_at : {S : Type 0} → (A → S → S) → DictStorage A → Option ℕ → S → S
  release_at release dict none s = s
  release_at release dict (some pos) s = elim (get_elem? dict.entries pos) [
    | none ↦ s
    | some entry ↦ release entry.1 s
  ]

  unfoldable pub dict_set_handle :
      {S : Type 0} → (A → S → S) → DictStorage A → List ℕ → A → S → DictStorage A × S
  dict_set_handle release dict key value s =
      elim (dict_backend_spec_by_impl specs dict.runtime_impl) [
        | none ↦ (dict, s)
        | some backend ↦ (
          set_by_impl backend.impl dict key value,
          release_at release dict (find_by_impl backend.impl dict key) s,
        )
      ]

  unfoldable pub dict_try_get : DictStorage A → List ℕ → Option A
  unfolding dict_find_pos
  dict_try_get dict key = elim (dict_find_pos dict key) [
    | none ↦ none
    | some pos ↦ elim (get_elem? dict.entries pos) [ none ↦ none | some entry ↦ some entry.1 ]
  ]

  unfoldable pub dict_after_clone : DictStorage A → DictStorage A
  dict_after_clone dict = elim (dict_backend_spec_by_impl specs dict.runtime_impl) [
    | none ↦ record { runtime_impl = dict.runtime_impl; entries = dict.entries; index_by_key = [] }
    | some backend ↦ reindexed backend.impl dict
  ]

  unfoldable pub clone_dict_storage : DictStorage A → DictRuntimeImpl → DictStorage A
  unfolding dict_after_clone
  clone_dict_storage src impl =
      dict_after_clone (record { runtime_impl = impl; entries = src.entries; index_by_key = [] })
