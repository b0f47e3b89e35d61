-- ===== src/DictStorage/Histories.antt =====
-- Sequences of calls on a dictionary of src/StyioExtern/ExternLib.cpp: what it holds does not
-- depend on the backends that it was kept by.
use styio.Prelude.{ℕ, ◌≡◌, refl, sym, subst, List, [], ◌∷◌}
use styio.Prelude.Texts.{find_key, put_key}
use styio.DictStorage.{
  DictRuntimeImpl, DictBackendSpec, DictStorage, new_dict, dict_set, dict_try_get,
  clone_dict_storage, position,
}
use styio.DictStorage.Backends.{IsSupported, IsValid}
use styio.DictStorage.Calls.{dict_set-put_key, clone_dict_storage_lem, dict_try_get-find_key}

-- A write, or going on with a clone that another backend keeps.
pub data Op (A : Type 0) : Type 0 where
  sets : List ℕ → A → Op A
  clones : DictRuntimeImpl → Op A

module _ {A : Type 0} (specs : List DictBackendSpec) where
  unfoldable pub op : Op A → DictStorage A → DictStorage A
  op (sets key value) dict = dict_set specs dict key value
  op (clones impl) dict = clone_dict_storage specs dict impl

  unfoldable pub ops : List (Op A) → DictStorage A → DictStorage A
  unfolding op
  ops [] dict = dict
  ops (o ∷ os) dict = ops os (op o dict)

  -- Every backend that a sequence goes to is in the build.
  abbrev pub AllSupported : List (Op A) → Type 0
  AllSupported [] = Unit
  AllSupported (sets key value ∷ os) = AllSupported os
  AllSupported (clones impl ∷ os) = IsSupported specs impl × AllSupported os

-- The map that a sequence of calls describes: the keys in the order of their first writes.
module _ {A : Type 0} where
  unfoldable pub described : List (Op A) → List (List ℕ × A) → List (List ℕ × A)
  described [] entries = entries
  described (sets key value ∷ os) entries = described os (put_key entries key value)
  described (clones impl ∷ os) entries = described os entries

  pub new_dict-IsValid : (impl : DictRuntimeImpl) → IsValid (new_dict {A = A} impl)
  unfolding find_key position
  new_dict-IsValid impl = record { distinct = tt; found = λ o k. refl }

module _ {A : Type 0} (specs : List DictBackendSpec) where
  -- What a dictionary should be after calls: its entries, and what a read gives for each key.
  abbrev pub Holds : DictStorage A → List (List ℕ × A) → Type 0
  Holds dict entries =
      (dict.entries ≡ entries)
      × IsValid dict
      × ((key : List ℕ) → dict_try_get specs dict key ≡ find_key entries key)

  ops_lem :
      (os : List (Op A)) (dict : DictStorage A)
      → AllSupported specs os
      → IsSupported specs dict.runtime_impl
      → IsValid dict
      → Holds (ops specs os dict) (described os dict.entries)
  unfolding ops described op
  ops_lem [] dict a s v = (refl, v, λ key. dict_try_get-find_key specs dict key s v)
  ops_lem (sets key value ∷ os) dict a s v =
      let (es, impl, valid) = dict_set-put_key specs dict key value s v in
      subst (λ e. Holds (ops specs os (dict_set specs dict key value)) (described os e)) es
        (ops_lem os (dict_set specs dict key value) a (subst (IsSupported specs) (sym impl) s)
          valid)
  ops_lem (clones impl ∷ os) dict a s v =
      let (es, own, valid) = clone_dict_storage_lem specs dict impl a.0 v in
      subst (λ e. Holds (ops specs os (clone_dict_storage specs dict impl)) (described os e)) es
        (ops_lem os (clone_dict_storage specs dict impl) a.1
          (subst (IsSupported specs) (sym own) a.0) valid)

  -- After any writes to a new dictionary, and any clones to backends that the build has, the
  -- entries are those of the map that the writes describe, in the order in which their keys were
  -- first written, and a read of any key gives what that map has: on every backend the same.
  pub ops-Holds :
      (impl : DictRuntimeImpl) (os : List (Op A))
      → IsSupported specs impl
      → AllSupported specs os
      → Holds (ops specs os (new_dict impl)) (described os [])
  ops-Holds impl os s a = ops_lem os (new_dict impl) a s (new_dict-IsValid impl)
