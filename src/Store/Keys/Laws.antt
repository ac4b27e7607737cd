-- ===== src/Store/Keys/Laws.antt =====
-- The keys of reads and of writes agree, on their hash, on every comparison, and through the methods.
use warp_cache.Base.{
  ℕ, ◌≡◌, refl, sym, ap, ◌∙◌, subst, arith, Bool, true, false, Option-cases, ◌==◌, if◌then◌else◌,
  Option, none, some, List, [], ◌∷◌, ◌⊎◌, inl, inr,
}
use warp_cache.Store.Map
use warp_cache.Store.Map.{Compare, Key, SieveEntry, Map, Probe, found, absent, failed, IsEquality}
use warp_cache.Store.Function.{Cached, expired, Done, Lookup, call, read, set}
use warp_cache.Store.Function.Laws.{IsCached, read-set}
use warp_cache.Store.Function.Whole.{call-set}
use warp_cache.Store.Keys.{
  Python, minus_one, BorrowedArgs, HashedArgs, borrowed, cache_key, as_key, cache_key_new, combined,
  make_key, hashed, hash_args, rich_compare_eq, equivalent, cache_key_eq, find, read_args, get_args,
  probe_args, call_args, set_args,
}

-- pyo3 reports the error of `PyObject_Hash`, which is -1.
pub record IsPython {Obj : Type 0} (py : Python Obj) : Type 0 where
  pub hash_checked :
      (obj : Obj)
      → py.bind_hash obj
        ≡ (if py.object_hash obj == minus_one then none else some (py.object_hash obj))

abbrev pub stored_as : {Obj : Type 0} → Option (HashedArgs Obj) → Option (Key Obj)
stored_as none = none
stored_as (some h) = some (cache_key h)

module _ {Obj : Type 0} (py : Python Obj) (lawful : IsPython py) where
  hashed-cache_key_new :
      (obj : Obj) (owner : Option Obj)
      → (owner ≡ none) ⊎ (owner ≡ some obj)
      → (cache_key_new py obj ≡ stored_as (hashed py obj owner))
        × ((h : HashedArgs Obj) → hashed py obj owner ≡ some h → as_key (borrowed h) ≡ cache_key h)
  unfolding cache_key_new hashed cache_key
  hashed-cache_key_new obj owner (inl e) =
      (ground (arith, lawful.hash_checked obj), λ h p. ground arith)
  hashed-cache_key_new obj owner (inr e) =
      (ground (arith, lawful.hash_checked obj), λ h p. ground arith)

  -- The key of a write and what a read looks up: Python's exceptions are the same, and so are the keys.
  pub hash_args-make_key :
      (args : Obj) (kwargs : Option (List (Obj × Obj)))
      → (make_key py args kwargs ≡ stored_as (hash_args py args kwargs))
        × ((h : HashedArgs Obj)
            → hash_args py args kwargs ≡ some h
            → as_key (borrowed h) ≡ cache_key h)
  unfolding make_key hash_args
  hash_args-make_key args none = hashed-cache_key_new args none (inl refl)
  hash_args-make_key args (some []) = hashed-cache_key_new args none (inl refl)
  hash_args-make_key args (some (kw ∷ kws)) = elim (Option-cases (combined py args (kw ∷ kws))) [
    | inl e ↦ rw (make_key, hash_args, e) (refl, λ h p. absurd (ground arith))
    | inr (obj, e) ↦ rw (make_key, hash_args, e) (hashed-cache_key_new obj (some obj) (inr refl))
  ]

  made_key :
      (args : Obj) (kwargs : Option (List (Obj × Obj))) (key : Key Obj)
      → make_key py args kwargs ≡ some key
      → (h : HashedArgs Obj) × (hash_args py args kwargs ≡ some h) × (as_key (borrowed h) ≡ key)
  made_key args kwargs key made =
      let (agree, same) = hash_args-make_key args kwargs in
      elim (Option-cases (hash_args py args kwargs)) [
        | inl e ↦
            let n : some key ≡ none = sym made ∙ agree ∙ ap stored_as e in absurd (ground arith)
        | inr (h, e) ↦
            let k : some (cache_key h) ≡ some key = sym (agree ∙ ap stored_as e) ∙ made in
            (h, e, same h e ∙ ground arith)
      ]

-- the keyword arguments of a call; it may have none
abbrev pub keywords : {Obj : Type 0} → Option (List (Obj × Obj)) → List (Obj × Obj)
keywords none = []
keywords (some kws) = kws

-- Two calls without keyword arguments, or with keyword arguments that Python sorts to the same list.
pub data SameKeywords {Obj : Type 0} (py : Python Obj) (kwargs kwargs' : Option (List (Obj × Obj)))
    : Type 0 where
  positional : keywords kwargs ≡ [] → keywords kwargs' ≡ [] → SameKeywords py kwargs kwargs'
  reordered :
      (kw kw' : Obj × Obj) (kws kws' : List (Obj × Obj))
      → kwargs ≡ some (kw ∷ kws)
      → kwargs' ≡ some (kw' ∷ kws')
      → py.sorted (kw ∷ kws) ≡ py.sorted (kw' ∷ kws')
      → SameKeywords py kwargs kwargs'

module _ {Obj : Type 0} (py : Python Obj) (args : Obj) where
  hash_args-positional :
      (kwargs : Option (List (Obj × Obj)))
      → keywords kwargs ≡ []
      → hash_args py args kwargs ≡ hashed py args none
  unfolding hash_args
  hash_args-positional none e = refl
  hash_args-positional (some []) e = refl
  hash_args-positional (some (kw ∷ kws)) e = absurd (ground arith)

  hash_args-SameKeywords :
      (kwargs kwargs' : Option (List (Obj × Obj)))
      → SameKeywords py kwargs kwargs'
      → hash_args py args kwargs' ≡ hash_args py args kwargs
  unfolding hash_args
  hash_args-SameKeywords kwargs kwargs' (positional e e') =
      hash_args-positional kwargs' e' ∙ sym (hash_args-positional kwargs e)
  hash_args-SameKeywords kwargs kwargs' (reordered kw kw' kws kws' e e' same) =
      rw (e, e', hash_args, combined, same) refl

-- what a lookup leaves pending, and the entry
abbrev pub probed : {V : Type 0} → Probe (SieveEntry V) → Bool × Option (SieveEntry V)
probed (found e) = (false, some e)
probed absent = (false, none)
probed failed = (true, none)

module _ {Obj V : Type 0} (py : Python Obj) where
  find_pending :
      (b : BorrowedArgs Obj) (m : Map Obj V)
      → find (λ p j. equivalent py p b j) true m ≡ (true, none)
  unfolding find equivalent rich_compare_eq
  find_pending b [] = refl
  find_pending b ((j, e) ∷ m) = ground (arith, find_pending b m)

  -- A lookup ends as `Map.get` does: with the entry, without one, or, after an exception, without one and with
  -- the exception pending; and once one is pending no entry is found.
  pub find-get :
      (b : BorrowedArgs Obj) (m : Map Obj V)
      → (find (λ p j. equivalent py p b j) false m ≡ probed (Map.get py.rich_compare m (as_key b)))
        × (find (λ p j. equivalent py p b j) true m ≡ (true, none))
        × (find (λ p j. cache_key_eq py p (as_key b) j) false m
            ≡ find (λ p j. equivalent py p b j) false m)
  unfolding find equivalent cache_key_eq rich_compare_eq Map.get Map.key_eq
  find-get b [] = (refl, refl, refl)
  find-get b ((j, e) ∷ m) =
      let (g, p, o) = find-get b m in
      (ground (arith, find_pending b m), find_pending b ((j, e) ∷ m), refl)

module _ {Obj V : Type 0} (py : Python Obj) (c : Cached Obj V) (args : Obj)
    (kwargs : Option (List (Obj × Obj))) where
  set_made :
      (key : Key Obj) (value : V) (now : ℕ) {c' : Cached Obj V}
      → make_key py args kwargs ≡ some key
      → set py.rich_compare c key value now ≡ some (c', false)
      → set_args py c value args kwargs now ≡ some (c', Done.returned false)
  unfolding set_args
  set_made key value now made ended = rw (set_args, made, ended) refl

  read_made :
      (h : HashedArgs Obj) (now : ℕ)
      → hash_args py args kwargs ≡ some h
      → read_args py c args kwargs now ≡ read py.rich_compare c (as_key (borrowed h)) now
  unfolding read_args
  read_made h now e = rw (read_args, e) refl

  get_hit :
      (now : ℕ) {v : V}
      → (read_args py c args kwargs now).1 ≡ Lookup.hit v
      → (get_args py c args kwargs now).1 ≡ Done.returned (some v)
  unfolding get_args
  get_hit now e = rw (get_args, e) refl

  probe_hit :
      (now : ℕ) {v : V}
      → (read_args py c args kwargs now).1 ≡ Lookup.hit v
      → (probe_args py c args kwargs now).1 ≡ Done.returned (true, some v)
  unfolding probe_args
  probe_hit now e = rw (probe_args, e) refl

  call_made :
      (function : Cached Obj V → Cached Obj V × Option V) (h : HashedArgs Obj) (now later : ℕ)
      → hash_args py args kwargs ≡ some h
      → call_args py function c args kwargs now later
        ≡ call py.rich_compare function c (as_key (borrowed h)) now later
  unfolding call_args
  call_made function h now later e = rw (call_args, e) refl

module _ {Obj V : Type 0} (py : Python Obj) (lawful : IsPython py)
    (equality : IsEquality py.rich_compare) {cap : ℕ} {c : Cached Obj V}
    (valid : IsCached py.rich_compare cap c) where
  -- If Python's == is an equivalence on all objects that never raises, and pyo3 reports the errors of hashing: on a
  -- well-formed cache that is not in use, if Python makes a key of the arguments, set ends without an exception and
  -- leaves a well-formed cache, and what it stores get returns and _probe reports as a hit, for the same positional
  -- arguments and no keyword arguments if there were none, or else keyword arguments that Python sorts to the same list,
  -- until its lifetime has passed.
  pub get_args-set_args :
      (value : V) (now later : ℕ) (args : Obj) (kwargs kwargs' : Option (List (Obj × Obj)))
      (key : Key Obj)
      → make_key py args kwargs ≡ some key
      → SameKeywords py kwargs kwargs'
      → c.active ≡ false
      → expired c.ttl now later ≡ false
      → (c' : Cached Obj V) × (set_args py c value args kwargs now ≡ some (c', Done.returned false))
        × IsCached py.rich_compare cap c'
        × ((get_args py c' args kwargs' later).1 ≡ Done.returned (some value))
        × ((probe_args py c' args kwargs' later).1 ≡ Done.returned (true, some value))
  get_args-set_args value now later args kwargs kwargs' key made same idle alive =
      let (h, hashed_so, is_key) = made_key py lawful args kwargs key made in
      let again : hash_args py args kwargs' ≡ some h =
        hash_args-SameKeywords py args kwargs kwargs' same ∙ hashed_so in
      let (c', ended, valid', hit) = read-set equality valid key value now later idle alive in
      let found_value : (read_args py c' args kwargs' later).1 ≡ Lookup.hit value =
        ap (λ r. r.1) (read_made py c' args _ h later again)
        ∙ subst (λ k. (read py.rich_compare c' k later).1 ≡ Lookup.hit value) (sym is_key) hit in
      (
        c',
        set_made py c args _ key value now made ended,
        valid',
        get_hit py c' args _ later found_value,
        probe_hit py c' args _ later found_value,
      )

  -- If Python's == is an equivalence on all objects that never raises, and pyo3 reports the errors of hashing: on a
  -- well-formed cache that is not in use, if Python makes a key of the arguments, after a set `__call__` returns the
  -- stored value whatever the wrapped function does, for the same positional arguments and no keyword arguments if
  -- there were none, or else keyword arguments that Python sorts to the same list, until its lifetime has passed, and
  -- the cache stays well-formed.
  pub call_args-set_args :
      (value : V) (now later end : ℕ) (function : Cached Obj V → Cached Obj V × Option V)
      (args : Obj) (kwargs kwargs' : Option (List (Obj × Obj))) (key : Key Obj)
      → make_key py args kwargs ≡ some key
      → SameKeywords py kwargs kwargs'
      → c.active ≡ false
      → expired c.ttl now later ≡ false
      → (c' : Cached Obj V) × (c'' : Cached Obj V) × (set_args py c value args kwargs now
          ≡ some (c', Done.returned false))
        × (call_args py function c' args kwargs' later end ≡ some (c'', Done.returned value))
        × IsCached py.rich_compare cap c''
  call_args-set_args value now later end function args kwargs kwargs' key made same idle alive =
      let (h, hashed_so, is_key) = made_key py lawful args kwargs key made in
      let again : hash_args py args kwargs' ≡ some h =
        hash_args-SameKeywords py args kwargs kwargs' same ∙ hashed_so in
      let (c', c'', ended, called, valid') =
        call-set equality c key value now later function end valid idle alive in
      (
        c',
        c'',
        set_made py c args _ key value now made ended,
        call_made py c' args _ function h later end again
            ∙ subst
                (λ k.
                  call py.rich_compare function c' k later end ≡ some (c'', Done.returned value))
                (sym is_key) called,
        valid',
      )
