-- ===== src/SharedStore/Bytes.antt =====
-- `deserialize_value` of src/shared_store.rs, after `serialize` or pickle.
use warp_cache.Base.{
  ℕ, ◌≡◌, inl, inr, refl, sym, ap, subst, ◌∙◌, arith, Option-cases, Option, none, some, List,
}
use warp_cache.Serde
use warp_cache.Serde.{Value, Utf8, Read, wrap_pickle, pickle_payload}
use warp_cache.Serde.Format.{IsSized, base}
use warp_cache.Serde.RoundTrip.{deserialize-serialize, pickle_fallback}
use warp_cache.SharedStore.{Runtime, Outcome, to_bytes, unpickle, deserialize_value}

-- What a reader gets for a value: the value up to derived classes if the format has a form for it, the
-- value itself if it is pickled.
unfoldable pub restored : Option (List ℕ) → Value → Value
restored (some bs) v = base v
restored none v = v

-- Unpickling what was pickled gives an equal object.
abbrev pub Unpickles : Runtime → Type 0
Unpickles rt = (v : Value) (bs : List ℕ) → rt.dumps v ≡ some bs → rt.loads bs ≡ some v

module _ (rt : Runtime) where
  value_read :
      (bs : List ℕ) (v : Value)
      → Serde.deserialize rt.utf8 bs ≡ Read.ok v
      → deserialize_value rt bs ≡ Outcome.returned v
  unfolding deserialize_value
  value_read bs v e = rw (deserialize_value, e) refl

  pickle_read :
      (bs : List ℕ) (v : Value)
      → rt.loads bs ≡ some v
      → deserialize_value rt (wrap_pickle bs) ≡ Outcome.returned v
  unfolding deserialize_value unpickle
  pickle_read bs v e =
      let (none_read, payload, _) = pickle_fallback rt.utf8 bs in
      rw (deserialize_value, none_read, payload, unpickle, e) refl

  -- A value whose sizes fit the format's fields, once turned into bytes, is read back from them, if the
  -- pickle module restores what it has pickled.
  pub deserialize_value-to_bytes :
      (v : Value) (bs : List ℕ)
      → Unpickles rt
      → IsSized rt.utf8 v
      → to_bytes rt v ≡ some bs
      → deserialize_value rt bs ≡ Outcome.returned (restored (Serde.serialize rt.utf8 v) v)
  unfolding to_bytes restored
  deserialize_value-to_bytes v bs unpickles sized made =
      elim (Option-cases (Serde.serialize rt.utf8 v)) [
        | inr (w, e) ↦
            let same : w ≡ bs = ground arith in
            subst (λ o. deserialize_value rt bs ≡ Outcome.returned (restored o v)) (sym e)
              (value_read bs (base v) (deserialize-serialize rt.utf8 v sized (e ∙ ap some same)))
        | inl e ↦ elim (Option-cases (rt.dumps v)) [
          | inl f ↦ absurd (ground arith)
          | inr (w, f) ↦
              let same : wrap_pickle w ≡ bs = ground arith in
              subst (λ o. deserialize_value rt bs ≡ Outcome.returned (restored o v)) (sym e)
                (subst (λ x. deserialize_value rt x ≡ Outcome.returned v) same
                  (pickle_read w v (unpickles v w f)))
        ]
      ]
