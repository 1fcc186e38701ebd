-- ===== src/LlmCache/Held.antt =====
-- What the cache of system/core/interpretation/llm_cache.py holds, against the history of its calls.
use capability_os.Base.{
  ℕ, ◌+◌, ◌≤◌, String, true, false, none, some, [], ◌∷◌, ◌++◌, length, ltb, if◌then◌else◌, ◌==◌,
  eq_iff, Dict, lookup, insert, erase, has, lookup-own, lookup-erase, ◌≡◌, refl, sym, subst, ◌∙◌,
  arith, Bool-cases, Option-cases, inl, inr,
}
use capability_os.LlmCache.{LlmCache, move_to_end, key, trim, put}

abbrev Entry : Type 0
Entry = String × ℕ

lookup-append-one :
    (j k : String) (v : Entry) (d : Dict Entry)
    → lookup j (d ++ (k, v) ∷ [])
      ≡ elim (lookup j d) [ some w ↦ some w | none ↦ if k == j then some v else none ]
unfolding lookup
lookup-append-one j k v [] = refl
lookup-append-one j k v ((i, w) ∷ d) = elim (Bool-cases (i == j)) [
  | inl hit ↦ rw hit refl
  | inr miss ↦ rw miss (lookup-append-one j k v d)
]

pub lookup-move_to_end : (j k : String) (d : Dict Entry) → lookup j (move_to_end k d) ≡ lookup j d
unfolding move_to_end
lookup-move_to_end j k d = elim (Option-cases (lookup k d)) [
  | inl missing ↦ rw (missing, move_to_end) refl
  | inr (v, found) ↦
      rw (found, move_to_end)
        (lookup-append-one j k v (erase k d)
          ∙ rw (lookup-erase k j d) (elim (Bool-cases (k == j)) [
            | inl same ↦
                rw same
                  (rw same (sym (subst (λ x. lookup x d ≡ some v) ((eq_iff k j).0 same) found)))
            | inr other ↦ rw other (elim (Option-cases (lookup j d)) [
              | inl gone ↦ rw gone (rw other refl)
              | inr (w, there) ↦ rw there refl
            ])
          ]))
]

insert-cons :
    (k : String) (v : Entry) (e : String × Entry) (d : Dict Entry)
    → has k (e ∷ d) ≡ false
    → (insert k v (e ∷ d) ≡ e ∷ insert k v d) × (has k d ≡ false)
unfolding insert has
insert-cons k v (i, w) d h = elim (Bool-cases (i == k)) [
  | inl same ↦ let bad : true ≡ false = rw same at h in cc
  | inr differs ↦ (rw differs refl, rw differs at h)
]

lookup-trim-empty :
    (max : ℕ) (k : String) (v : Entry) → 1 ≤ max → lookup k (trim max (insert k v [])) ≡ some v
unfolding trim insert
lookup-trim-empty max k v positive =
    let fits : ltb max 1 ≡ false = ground arith in rw (fits, trim) (lookup-own k v [])

-- The new entry is last, so that it stays when the first one goes.
lookup-trim :
    (max : ℕ) (k : String) (v : Entry) (d : Dict Entry)
    → 1 ≤ max
    → has k d ≡ false
    → lookup k (trim max (insert k v d)) ≡ some v
unfolding trim
lookup-trim max k v [] positive new = lookup-trim-empty max k v positive
lookup-trim max k v (e ∷ d) positive new =
    let (last, new') = insert-cons k v e d new in
    elim (Bool-cases (ltb max (length (insert k v (e ∷ d))))) [
      | inl long ↦ rw (long, trim) (rw last (lookup-own k v d))
      | inr short ↦ rw (short, trim) (lookup-own k v (e ∷ d))
    ]

pub put-lookup :
    (digest : String → String) (system user response : String) (now : ℕ) (c : LlmCache)
    → 1 ≤ c.max
    → lookup (key digest system user) (put digest system user response now c).cache
      ≡ some (response, now + c.ttl)
unfolding put
put-lookup digest system user response now c positive =
    let k = key digest system user in
    elim (Bool-cases (has k c.cache)) [
      | inl there ↦ rw (there, put) (lookup-own k (response, now + c.ttl) (move_to_end k c.cache))
      | inr new ↦ rw (new, put) (lookup-trim c.max k (response, now + c.ttl) c.cache positive new)
    ]
