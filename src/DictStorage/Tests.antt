-- ===== src/DictStorage/Tests.antt =====
-- The dictionaries of src/StyioExtern/ExternLib.cpp on concrete calls.
use styio.Prelude.{ℕ, ◌+◌, ◌≡◌, refl, true, none, some, List, [], ◌∷◌}
use styio.Prelude.Scan.{codes}
use styio.Prelude.Texts.{same_text, find_key, put_key}
use styio.DictStorage.{
  DictRuntimeImpl, ordered_hash, linear, DictBackendSpec, DictStorage, registry,
  dict_backend_spec_by_impl, dict_backend_spec_by_name, spec_by_name, is_alias, new_dict, position,
  dict_set, dict_set_handle,
}
use styio.DictStorage.Backends.{IsSupported, IsValid}
use styio.DictStorage.Calls.{dict_set_handle_lem}
use styio.DictStorage.Histories.{Op, sets, clones, ops, described, Holds, ops-Holds}

abbrev both_backends : List DictBackendSpec
both_backends = registry true true

abbrev history : List (Op ℕ)
history =
    sets (codes "b") 1
    ∷ sets (codes "a") 2
    ∷ clones linear
    ∷ sets (codes "b") 3
    ∷ clones ordered_hash
    ∷ sets (codes "c") 4
    ∷ []

described_of_history : described history [] ≡ (codes "b", 3) ∷ (codes "a", 2) ∷ (codes "c", 4) ∷ []
unfolding described put_key same_text
described_of_history = refl

alias_in_capitals :
    dict_backend_spec_by_name both_backends (codes "V1")
    ≡ some (record { impl = linear; name = codes "linear"; aliases = codes "v1" ∷ [] })
unfolding dict_backend_spec_by_name spec_by_name is_alias same_text
alias_in_capitals = refl

supported : (impl : DictRuntimeImpl) → IsSupported both_backends impl
unfolding dict_backend_spec_by_impl
supported ordered_hash = (
  record {
    impl = ordered_hash;
    name = codes "ordered-hash";
    aliases = codes "ordered_hash" ∷ codes "v2" ∷ [];
  },
  refl,
)
supported linear =
    (record { impl = linear; name = codes "linear"; aliases = codes "v1" ∷ [] }, refl)

ops-Holds_example :
    Holds both_backends (ops both_backends history (new_dict ordered_hash)) (described history [])
ops-Holds_example =
    ops-Holds both_backends ordered_hash history (supported ordered_hash)
      (supported linear, (supported ordered_hash, tt))

abbrev one_entry : DictStorage ℕ
one_entry = record {
  runtime_impl = ordered_hash;
  entries = (codes "a", 7) ∷ [];
  index_by_key = (codes "a", 0) ∷ [];
}

one_entry-IsValid : IsValid one_entry
unfolding find_key position
one_entry-IsValid = record { distinct = (refl, tt); found = λ o k. refl }

-- A release that adds up what it releases.
dict_set_handle_example :
    dict_set_handle both_backends (λ old s. s + old) one_entry (codes "a") 9 100 ≡ (
      dict_set both_backends one_entry (codes "a") 9,
      elim (find_key one_entry.entries (codes "a")) [ none ↦ 100 | some old ↦ 100 + old ],
    )
dict_set_handle_example =
    dict_set_handle_lem both_backends (λ old s. s + old) one_entry (codes "a") 9 100
      (supported ordered_hash) one_entry-IsValid
