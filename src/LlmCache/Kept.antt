-- ===== src/LlmCache/Kept.antt =====
-- What the cache of system/core/interpretation/llm_cache.py keeps over its calls.
use capability_os.Base.{
  ℕ, ◌+◌, ◌≤◌, String, false, none, some, List, [], ◌∷◌, length, ltb, contains, Distinct,
  if◌then◌else◌, ◌==◌, eq_iff, Dict, lookup, insert, erase, has, keys, lookup-insert, lookup-erase,
  Distinct-insert, ◌≡◌, refl, sym, subst, ap, ◌∙◌, arith, Bool-cases, Option-cases, inl, inr,
}
use capability_os.LlmCache.{LlmCache, new_cache, move_to_end, key, get, trim, put, clear}
use capability_os.LlmCache.Held.{lookup-move_to_end, put-lookup}
use capability_os.LlmCache.Bounded.{IsSmall-erase, IsSmall-move_to_end, IsSmall-put}
use capability_os.LlmCache.Calls.{
  Call, getting, putting, clearing, perform, perform_all, past, last_entry, IsKept,
}

lookup-absent :
    (k : String) (d : Dict (String × ℕ)) → contains (keys d) k ≡ false → lookup k d ≡ none
unfolding lookup keys
lookup-absent k [] h = refl
lookup-absent k ((i, w) ∷ d) h =
    let differs : i == k ≡ false = ground arith in rw differs (lookup-absent k d (ground arith))

lookup-erased :
    (k j : String) (e : String × ℕ) (d : Dict (String × ℕ))
    → lookup j (erase k d) ≡ some e
    → lookup j d ≡ some e
lookup-erased k j e d h = elim (Bool-cases (k == j)) [
  | inl same ↦ let bad : none ≡ some e = sym (lookup-erase k j d ∙ rw same refl) ∙ h in cc
  | inr other ↦ sym (lookup-erase k j d ∙ rw other refl) ∙ h
]

lookup-trimmed :
    (max : ℕ) (j : String) (e : String × ℕ) (d : Dict (String × ℕ))
    → Distinct (keys d)
    → lookup j (trim max d) ≡ some e
    → lookup j d ≡ some e
unfolding trim keys lookup
lookup-trimmed max j e [] distinct h = elim (Bool-cases (ltb max 0)) [
  | inl long ↦ rw long at h
  | inr short ↦ rw short at h
]
lookup-trimmed max j e ((i, w) ∷ d) distinct h = elim (Bool-cases (ltb max (length ((i, w) ∷ d)))) [
  | inl long ↦
      let found : lookup j d ≡ some e = rw long at h in
      elim (Bool-cases (i == j)) [
        | inl same ↦
            let gone =
              lookup-absent j d
                (subst (λ x. contains (keys d) x ≡ false) ((eq_iff i j).0 same) distinct.0) in
            let bad : none ≡ some e = sym gone ∙ found in cc
        | inr other ↦ rw other found
      ]
  | inr short ↦ rw short at h
]

get-IsKept :
    (digest : String → String) (system user : String) (now : ℕ) (h : List Call) (c : LlmCache)
    → IsKept digest h c
    → IsKept digest (getting system user now ∷ h) (get digest system user now c).1
unfolding get
get-IsKept digest system user now h c s =
    let k = key digest system user in
    let counts = s.counted in
    elim (Option-cases (lookup k c.cache)) [
      | inl missing ↦
          rw (missing, get)
            (record {
              small = s.small;
              positive = s.positive;
              held = s.held;
              counted = omega arith;
            })
      | inr ((response, expire_at), found) ↦ elim (Bool-cases (ltb expire_at now)) [
        | inl late ↦
            rw (found, get)
              (rw late (record {
                small = IsSmall-erase c.max k c.cache s.small;
                positive = s.positive;
                held = λ j e at. s.held j e (lookup-erased k j e c.cache at);
                counted = omega arith;
              }))
        | inr timely ↦
            rw (found, get)
              (rw timely (record {
                small = IsSmall-move_to_end c.max k c.cache s.small;
                positive = s.positive;
                held = λ j e at. s.held j e (sym (lookup-move_to_end j k c.cache) ∙ at);
                counted = omega arith;
              }))
      ]
    ]

-- Another key than the one that is put.
put-other :
    (digest : String → String) (system user response : String) (now : ℕ) (c : LlmCache) (j : String)
    (e : String × ℕ)
    → Distinct (keys c.cache)
    → key digest system user == j ≡ false
    → lookup j (put digest system user response now c).cache ≡ some e
    → lookup j c.cache ≡ some e
unfolding put
put-other digest system user response now c j e distinct other h =
    let k = key digest system user in
    let entry : String × ℕ = (response, now + c.ttl) in
    elim (Bool-cases (has k c.cache)) [
      | inl there ↦
          let inserted : lookup j (insert k entry (move_to_end k c.cache)) ≡ some e =
            rw (there, put) at h in
          sym (
            lookup-insert k j entry (move_to_end k c.cache)
            ∙ rw other (lookup-move_to_end j k c.cache))
          ∙ inserted
      | inr new ↦
          let trimmed : lookup j (trim c.max (insert k entry c.cache)) ≡ some e =
            rw (new, put) at h in
          sym (lookup-insert k j entry c.cache ∙ rw other refl)
          ∙ lookup-trimmed c.max j e (insert k entry c.cache)
              (Distinct-insert k entry c.cache distinct) trimmed
    ]

put-held :
    (digest : String → String) (system user response : String) (now : ℕ) (h : List Call)
    (c : LlmCache)
    → IsKept digest h c
    → (j : String) (e : String × ℕ)
    → lookup j (put digest system user response now c).cache ≡ some e
    → last_entry digest c.ttl j (putting system user response now ∷ h) ≡ some e
put-held digest system user response now h c s j e at =
    elim (Bool-cases (key digest system user == j)) [
      | inl same ↦ rw same (
          sym (put-lookup digest system user response now c s.positive)
          ∙ ap (λ x. lookup x (put digest system user response now c).cache)
              ((eq_iff (key digest system user) j).0 same)
          ∙ at)
      | inr other ↦
          rw other
            (s.held j e (put-other digest system user response now c j e s.small.distinct other at))
    ]

-- `put` changes the entries only.
put-rest :
    (digest : String → String) (system user response : String) (now : ℕ) (c : LlmCache)
    → put digest system user response now c
      ≡ record c { cache = (put digest system user response now c).cache }
unfolding put
put-rest digest system user response now c =
    elim (Bool-cases (has (key digest system user) c.cache)) [
      | inl there ↦ rw (there, put) refl
      | inr new ↦ rw (new, put) refl
    ]

put-IsKept :
    (digest : String → String) (system user response : String) (now : ℕ) (h : List Call)
    (c : LlmCache)
    → IsKept digest h c
    → IsKept digest (putting system user response now ∷ h) (put digest system user response now c)
put-IsKept digest system user response now h c s =
    subst (IsKept digest (putting system user response now ∷ h))
      (sym (put-rest digest system user response now c))
      (record {
        small = IsSmall-put digest system user response now c s.small;
        positive = s.positive;
        held = put-held digest system user response now h c s;
        counted = s.counted;
      })

perform-IsKept :
    (digest : String → String) (call : Call) (h : List Call) (c : LlmCache)
    → IsKept digest h c
    → IsKept digest (call ∷ h) (perform digest call c)
unfolding perform clear lookup keys
perform-IsKept digest (getting system user now) h c s = get-IsKept digest system user now h c s
perform-IsKept digest (putting system user response now) h c s =
    put-IsKept digest system user response now h c s
perform-IsKept digest clearing h c s = record {
  small = record { distinct = tt; size = omega arith };
  positive = s.positive;
  held = λ k e found. (let bad : none ≡ some e = found in cc);
  counted = s.counted;
}

perform_all-past :
    (digest : String → String) (calls h : List Call) (c : LlmCache)
    → IsKept digest h c
    → IsKept digest (past calls h) (perform_all digest calls c)
unfolding perform_all past
perform_all-past digest [] h c s = s
perform_all-past digest (call ∷ calls) h c s =
    perform_all-past digest calls (call ∷ h) (perform digest call c)
      (perform-IsKept digest call h c s)

new_cache-IsKept :
    (digest : String → String) (max_entries ttl : ℕ) → IsKept digest [] (new_cache max_entries ttl)
unfolding new_cache lookup keys
new_cache-IsKept digest max_entries ttl = record {
  small = record { distinct = tt; size = omega arith };
  positive = ground arith;
  held = λ k e found. (let bad : none ≡ some e = found in cc);
  counted = refl;
}

-- After any calls on a new cache, no key stands twice and the entries are no more than the bound, which
-- is one at least; an entry that is held is the one that was put last under its key since the cache was
-- cleared; and the hits and the misses are together the number of the lookups.
pub perform_all-IsKept :
    (digest : String → String) (max_entries ttl : ℕ) (calls : List Call)
    → IsKept digest (past calls []) (perform_all digest calls (new_cache max_entries ttl))
perform_all-IsKept digest max_entries ttl calls =
    perform_all-past digest calls [] (new_cache max_entries ttl)
      (new_cache-IsKept digest max_entries ttl)

-- Of a cache with a bound of one at least, a response that has been put is got for the same prompts as
-- long as it has not expired, whatever else the cache held, and not afterwards.
pub get-put :
    (digest : String → String) (system user response : String) (now later : ℕ) (c : LlmCache)
    → 1 ≤ c.max
    → (get digest system user later (put digest system user response now c)).0
      ≡ (if ltb (now + c.ttl) later then none else some response)
unfolding get
get-put digest system user response now later c positive =
    rw (put-lookup digest system user response now c positive, get)
      (elim (Bool-cases (ltb (now + c.ttl) later)) [
        | inl late ↦ rw late refl
        | inr timely ↦ rw timely refl
      ])
