-- ===== src/Owners/Chains.antt =====
-- Windows/src/pb_process.c: what the operations on one chain of the cache of pids do to a search in it.
use proxy_bridge.Prelude.{
  ℕ, Bool, true, false, ◌≡◌, refl, ap, subst, inl, inr, List, [], ◌∷◌, Option, none, some,
  if◌then◌else◌, same_bool_iff, arith, Bool-cases, Option-cases,
}
use proxy_bridge.Owners.{
  LocalEnd, PidEntry, same_end, find_pid, renew_pid, store_pid, drop_pid, free_pids,
}

pub same_end-eq : (a b : LocalEnd) → same_end a b ≡ true → a ≡ b
unfolding same_end
same_end-eq a b h = ground (arith, same_bool_iff a.is_udp b.is_udp)

pub same_end_refl : (a : LocalEnd) → same_end a a ≡ true
unfolding same_end
same_end_refl a = ground (arith, same_bool_iff a.is_udp a.is_udp)

-- Each local end stands once in a chain.
abbrev pub Distinct : List PidEntry → Type 0
Distinct [] = Unit
Distinct (e ∷ es) = (find_pid e.end es ≡ none) × Distinct es

-- What an entry says once the taken ones are freed.
abbrev pub kept : (PidEntry → Bool) → Option PidEntry → Option PidEntry
kept taken none = none
kept taken (some e) = if taken e then none else some e

-- A local end that is not in a chain is not there once entries are freed.
find-free_none :
    (taken : PidEntry → Bool) (k : LocalEnd) (es : List PidEntry)
    → find_pid k es ≡ none
    → find_pid k (free_pids taken es) ≡ none
unfolding find_pid free_pids
find-free_none taken k [] h = refl
find-free_none taken k (e ∷ es) h = ground (arith, find-free_none taken k es)

pub find-free :
    (taken : PidEntry → Bool) (k : LocalEnd) (es : List PidEntry)
    → Distinct es
    → find_pid k (free_pids taken es) ≡ kept taken (find_pid k es)
unfolding find_pid free_pids
find-free taken k [] d = refl
find-free taken k (e ∷ es) d =
    ground (arith, find-free taken k es d.1, same_end-eq e.end k, find-free_none taken k es)

some_entry : (e f : PidEntry) → some e ≡ some f → e ≡ f
some_entry e f h = cc

-- An entry that is not taken is still found.
pub find-spared :
    (taken : PidEntry → Bool) (k : LocalEnd) (es : List PidEntry) (f : PidEntry)
    → find_pid k es ≡ some f
    → taken f ≡ false
    → find_pid k (free_pids taken es) ≡ some f
unfolding find_pid free_pids
find-spared taken k [] f h n = cc
find-spared taken k (e ∷ es) f h n = elim (Bool-cases (same_end e.end k)) [
  | inl m ↦
      let at : e ≡ f = some_entry e f (rw m at h) in
      rw (ap taken at, n, find_pid, m) (ap (λ x. some x) at)
  | inr m ↦
      let later : find_pid k (free_pids taken es) ≡ some f =
        find-spared taken k es f (rw m at h) n in
      elim (Bool-cases (taken e)) [
        | inl t ↦ rw (t, free_pids) later
        | inr t ↦ rw (t, find_pid, m, free_pids) later
      ]
]

pub free-Distinct :
    (taken : PidEntry → Bool) (es : List PidEntry) → Distinct es → Distinct (free_pids taken es)
unfolding free_pids
free-Distinct taken [] d = tt
free-Distinct taken (e ∷ es) d = elim (Bool-cases (taken e)) [
  | inl t ↦ rw (t, free_pids) (free-Distinct taken es d.1)
  | inr t ↦ rw (t, free_pids) (find-free_none taken e.end es d.0, free-Distinct taken es d.1)
]

find-drop_none :
    (j k : LocalEnd) (es : List PidEntry) → find_pid j es ≡ none → find_pid j (drop_pid k es) ≡ none
unfolding find_pid drop_pid
find-drop_none j k [] h = refl
find-drop_none j k (e ∷ es) h = ground (arith, find-drop_none j k es)

pub find-drop :
    (j k : LocalEnd) (es : List PidEntry)
    → Distinct es
    → find_pid j (drop_pid k es) ≡ (if same_end k j then none else find_pid j es)
unfolding find_pid drop_pid
find-drop j k [] d = ground arith
find-drop j k (e ∷ es) d = ground (
  arith,
  find-drop j k es d.1,
  same_end-eq e.end k,
  same_end-eq e.end j,
  same_end-eq k j,
  same_end_refl k,
)

pub drop-Distinct : (k : LocalEnd) (es : List PidEntry) → Distinct es → Distinct (drop_pid k es)
unfolding drop_pid
drop-Distinct k [] d = tt
drop-Distinct k (e ∷ es) d = elim (Bool-cases (same_end e.end k)) [
  | inl t ↦ rw (t, drop_pid) d.1
  | inr t ↦ rw (t, drop_pid) (find-drop_none e.end k es d.0, drop-Distinct k es d.1)
]

-- The same local end, or another one.
pub same_end-sym : (a b : LocalEnd) → same_end a b ≡ true → same_end b a ≡ true
same_end-sym a b h = rw (← same_end-eq a b h) (same_end_refl a)

abbrev pub entry : LocalEnd → ℕ → ℕ → PidEntry
entry k pid now = record { end = k; pid = pid; timestamp = now }

-- The entry that is known once a pid was stored.
abbrev pub learned : Bool → PidEntry → Option PidEntry → Option PidEntry
learned allocated new none = if allocated then some new else none
learned allocated new (some old) = some new

-- The chain after renewing, or the old one with the new entry in front.
renew_none :
    (now pid : ℕ) (k : LocalEnd) (es : List PidEntry)
    → renew_pid now k pid es ≡ none
    → find_pid k es ≡ none
unfolding renew_pid find_pid
renew_none now pid k [] h = refl
renew_none now pid k (e ∷ es) h = ground (arith, renew_none now pid k es)

abbrev Renewed : ℕ → ℕ → LocalEnd → LocalEnd → List PidEntry → Option (List PidEntry) → Type 0
Renewed now pid k j es none = find_pid k es ≡ none
Renewed now pid k j es (some fs) =
    (find_pid j fs ≡ (if same_end k j then some (entry k pid now) else find_pid j es))
    × ((old : PidEntry) × (find_pid k es ≡ some old))

renew-hit :
    (now pid : ℕ) (k j : LocalEnd) (e : PidEntry) (es : List PidEntry)
    → same_end e.end k ≡ true
    → Renewed now pid k j (e ∷ es) (some (record e { pid = pid; timestamp = now } ∷ es))
unfolding find_pid
renew-hit now pid k j e es t = (rw (same_end-eq e.end k t) (ground arith), (e, rw t refl))

renew_past :
    (now pid : ℕ) (j k : LocalEnd) (e : PidEntry) (es fs : List PidEntry)
    → same_end e.end k ≡ false
    → find_pid j fs ≡ (if same_end k j then some (entry k pid now) else find_pid j es)
    → find_pid j (e ∷ fs) ≡ (if same_end k j then some (entry k pid now) else find_pid j (e ∷ es))
unfolding find_pid
renew_past now pid j k e es fs t h =
    ground (arith, same_end-eq k j, same_end-eq e.end j, same_end_refl k)

renew-Renewed :
    (now pid : ℕ) (k j : LocalEnd) (es : List PidEntry)
    → Renewed now pid k j es (renew_pid now k pid es)
unfolding renew_pid find_pid
renew-Renewed now pid k j [] = refl
renew-Renewed now pid k j (e ∷ es) = elim (Bool-cases (same_end e.end k)) [
  | inl t ↦ rw (t, renew_pid) (renew-hit now pid k j e es t)
  | inr t ↦ elim (Option-cases (renew_pid now k pid es)) [
    | inl n ↦ rw (t, renew_pid, n) (rw t (renew_none now pid k es n))
    | inr (fs, n) ↦
        let ih : Renewed now pid k j es (some fs) =
          subst (Renewed now pid k j es) n (renew-Renewed now pid k j es) in
        rw (t, renew_pid, n) (renew_past now pid j k e es fs t ih.0, (ih.1.0, rw t ih.1.1))
  ]
]

pub find-store :
    (allocated : Bool) (now pid : ℕ) (k j : LocalEnd) (es : List PidEntry)
    → find_pid j (store_pid allocated now k pid es) ≡ (
        if same_end k j then learned allocated (entry k pid now) (find_pid k es) else find_pid j es)
unfolding store_pid find_pid
find-store allocated now pid k j es = elim (Option-cases (renew_pid now k pid es)) [
  | inl n ↦
      rw (store_pid, n, renew_none now pid k es n)
        (ground (arith, renew_none now pid k es n, same_end-eq k j))
  | inr (fs, n) ↦
      let ih : Renewed now pid k j es (some fs) =
        subst (Renewed now pid k j es) n (renew-Renewed now pid k j es) in
      rw (store_pid, n, ih.1.1) ih.0
]

not_same : (a b : LocalEnd) → same_end a b ≡ false → same_end b a ≡ false
not_same a b h = ground (arith, same_end-sym b a)

renew_past-Distinct :
    (now pid : ℕ) (k : LocalEnd) (e : PidEntry) (es fs : List PidEntry)
    → same_end e.end k ≡ false
    → Distinct (e ∷ es)
    → Renewed now pid k e.end es (some fs)
    → Distinct fs
    → Distinct (e ∷ fs)
renew_past-Distinct now pid k e es fs t d r dfs = (rw (r.0, not_same e.end k t) d.0, dfs)

abbrev WhereSome : Option (List PidEntry) → Type 0
WhereSome none = Unit
WhereSome (some fs) = Distinct fs

renew-Distinct :
    (now pid : ℕ) (k : LocalEnd) (es : List PidEntry)
    → Distinct es
    → WhereSome (renew_pid now k pid es)
unfolding renew_pid
renew-Distinct now pid k [] d = tt
renew-Distinct now pid k (e ∷ es) d = elim (Bool-cases (same_end e.end k)) [
  | inl t ↦ rw (t, renew_pid) d
  | inr t ↦ elim (Option-cases (renew_pid now k pid es)) [
    | inl n ↦ rw (t, renew_pid, n) tt
    | inr (fs, n) ↦
        rw (t, renew_pid, n)
          (renew_past-Distinct now pid k e es fs t d
            (subst (Renewed now pid k e.end es) n (renew-Renewed now pid k e.end es))
            (subst WhereSome n (renew-Distinct now pid k es d.1)))
  ]
]

pub store-Distinct :
    (allocated : Bool) (now pid : ℕ) (k : LocalEnd) (es : List PidEntry)
    → Distinct es
    → Distinct (store_pid allocated now k pid es)
unfolding store_pid
store-Distinct allocated now pid k es d = elim (Option-cases (renew_pid now k pid es)) [
  | inl n ↦ elim (Bool-cases allocated) [
    | inl a ↦ rw (store_pid, n, a) (renew_none now pid k es n, d)
    | inr a ↦ rw (store_pid, n, a) d
  ]
  | inr (fs, n) ↦ rw (store_pid, n) (subst WhereSome n (renew-Distinct now pid k es d))
]
