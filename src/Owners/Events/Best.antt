-- ===== src/Owners/Events/Best.antt =====
-- Windows/src/pb_process.c: the owner that the event cache answers is the best that it knows.
use proxy_bridge.Prelude.{
  ℕ, suc, ◌≤◌, ◌<◌, true, false, ◌&&◌, ◌≡◌, refl, ap, ◌⊎◌, inl, inr, List, [], ◌∷◌, ◌++◌, Option,
  none, some, ◌==◌, ==_iff, All, Bool-cases, &&_parts, arith,
}
use proxy_bridge.Owners.Events.Fit.{Fits, fits-Fits, Fits-fits, rank}
use proxy_bridge.Owners.Events.{
  OwnerEntry, OwnerCache, Sought, owner_cache_hash, fits, score, beats, best_owner,
  get_owner_event_pid,
}

-- An entry of a chain whose rank no other exceeds, and none before it reaches.
pub record Foremost (now : ℕ) (q : Sought) (chain : List OwnerEntry) (pid : ℕ) : Type 0 where
  pub before : List OwnerEntry
  pub entry : OwnerEntry
  pub after : List OwnerEntry
  pub split : chain ≡ before ++ entry ∷ after
  pub told : pid ≡ entry.pid
  pub fitting : Fits now q entry
  pub weaker : All (λ x. rank now q x < rank now q entry) before
  pub no_better : All (λ x. rank now q x ≤ rank now q entry) after

level : Option ℕ → ℕ
level none = 0
level (some s) = suc s

score-le : (q : Sought) (e : OwnerEntry) → score q e ≤ 4
unfolding score
score-le q e = ground arith

rank-le : (now : ℕ) (q : Sought) (e : OwnerEntry) → rank now q e ≤ 5
unfolding rank
rank-le now q e = ground (arith, score-le q e)

All-ranks : (now : ℕ) (q : Sought) (es : List OwnerEntry) → All (λ x. rank now q x ≤ 5) es
All-ranks now q [] = tt
All-ranks now q (e ∷ es) = (rank-le now q e, All-ranks now q es)

-- What the loop makes of a chain, with a best score so far.
abbrev Outcome : ℕ → Sought → Option ℕ → ℕ → List OwnerEntry → ℕ → Type 0
Outcome now q best pid es result =
    ((result ≡ pid) × All (λ x. rank now q x ≤ level best) es)
    ⊎ ((f : Foremost now q es result) × (level best < rank now q f.entry))

-- An entry that does not beat the best so far.
passed :
    (now : ℕ) (q : Sought) (best : Option ℕ) (pid : ℕ) (e : OwnerEntry) (es : List OwnerEntry)
    (result : ℕ)
    → rank now q e ≤ level best
    → Outcome now q best pid es result
    → Outcome now q best pid (e ∷ es) result
passed now q best pid e es result h (inl (same, all)) = inl (same, (h, all))
passed now q best pid e es result h (inr (f, beaten)) = inr (
  record {
    before = e ∷ f.before;
    entry = f.entry;
    after = f.after;
    split = ap (◌∷◌ e) f.split;
    told = f.told;
    fitting = f.fitting;
    weaker = (omega arith, f.weaker);
    no_better = f.no_better;
  },
  beaten,
)

-- An entry that does.
here :
    (now : ℕ) (q : Sought) (e : OwnerEntry) (es : List OwnerEntry) (result : ℕ)
    → result ≡ e.pid
    → Fits now q e
    → All (λ x. rank now q x ≤ rank now q e) es
    → Foremost now q (e ∷ es) result
here now q e es result same h all = record {
  before = [];
  entry = e;
  after = es;
  split = refl;
  told = same;
  fitting = h;
  weaker = tt;
  no_better = all;
}

taken :
    (now : ℕ) (q : Sought) (best : Option ℕ) (pid : ℕ) (e : OwnerEntry) (es : List OwnerEntry)
    (result : ℕ)
    → Fits now q e
    → rank now q e ≡ suc (score q e)
    → level best < rank now q e
    → Outcome now q (some (score q e)) e.pid es result
    → Outcome now q best pid (e ∷ es) result
unfolding level here
taken now q best pid e es result fit r h (inl (same, all)) =
    inr (here now q e es result same fit (rw r all), h)
taken now q best pid e es result fit r h (inr (f, beaten)) = inr (
  record {
    before = e ∷ f.before;
    entry = f.entry;
    after = f.after;
    split = ap (◌∷◌ e) f.split;
    told = f.told;
    fitting = f.fitting;
    weaker = (omega arith, f.weaker);
    no_better = f.no_better;
  },
  omega arith,
)

rank_of :
    (now : ℕ) (q : Sought) (best : Option ℕ) (e : OwnerEntry)
    → (fits now q e && beats (score q e) best) ≡ true
    → Fits now q e × (level best < rank now q e) × (rank now q e ≡ suc (score q e))
unfolding rank level
rank_of now q none e h = (fits-Fits now q e ((&&_parts _ _ h).0), ground arith, ground arith)
rank_of now q (some s) e h = (fits-Fits now q e ((&&_parts _ _ h).0), ground arith, ground arith)

low :
    (now : ℕ) (q : Sought) (best : Option ℕ) (e : OwnerEntry)
    → (fits now q e && beats (score q e) best) ≡ false
    → rank now q e ≤ level best
unfolding rank level
low now q none e h = ground arith
low now q (some s) e h = ground arith

top :
    (now : ℕ) (q : Sought) (best : Option ℕ) (e : OwnerEntry) (es : List OwnerEntry)
    → (fits now q e && beats (score q e) best) ≡ true
    → (score q e == 4) ≡ true
    → All (λ x. rank now q x ≤ rank now q e) es
top now q best e es h four =
    rw ((rank_of now q best e h).2, (==_iff (score q e) 4).0 four) (All-ranks now q es)

-- The loop finds the foremost entry, unless none beats the score that it starts with.
best_owner-Outcome :
    (now : ℕ) (q : Sought) (best : Option ℕ) (pid : ℕ) (es : List OwnerEntry)
    → Outcome now q best pid es (best_owner now q best pid es)
unfolding best_owner here
best_owner-Outcome now q best pid [] = inl (refl, tt)
best_owner-Outcome now q best pid (e ∷ es) =
    elim (Bool-cases (fits now q e && beats (score q e) best)) [
      | inl h ↦ elim (Bool-cases (score q e == 4)) [
        | inl four ↦
            rw (best_owner, h, four)
              (inr (
                here now q e es e.pid refl (rank_of now q best e h).0 (top now q best e es h four),
                (rank_of now q best e h).1,
              ))
        | inr less ↦
            rw (best_owner, h, less)
              (taken now q best pid e es _ (rank_of now q best e h).0 (rank_of now q best e h).2
                (rank_of now q best e h).1 (best_owner-Outcome now q (some (score q e)) e.pid es))
      ]
      | inr h ↦
          rw (best_owner, h)
            (passed now q best pid e es _ (low now q best e h)
              (best_owner-Outcome now q best pid es))
    ]

unfit : (now : ℕ) (q : Sought) (e : OwnerEntry) → rank now q e ≤ 0 → ¬ Fits now q e
unfolding rank
unfit now q e h f = ground (arith, Fits-fits now q e f)

none-Fits :
    (now : ℕ) (q : Sought) (es : List OwnerEntry)
    → All (λ x. rank now q x ≤ 0) es
    → All (λ x. ¬ Fits now q x) es
none-Fits now q [] h = tt
none-Fits now q (e ∷ es) h = (unfit now q e h.0, none-Fits now q es h.1)

-- The owner that the event cache answers for a flow is that of an entry of the flow's bucket that
-- fits: it is of the flow's local port and protocol, younger than two minutes, and each of its ends
-- is the flow's or left open. No entry that fits has more of its ends in common with the flow, and
-- none before it as many. Where no entry of the bucket fits, the answer is 0.
pub get_owner_event_pid-Foremost :
    (now : ℕ) (q : Sought) (cache : OwnerCache)
    → ((get_owner_event_pid now q cache ≡ 0)
        × All (λ x. ¬ Fits now q x) (cache (owner_cache_hash q.local_port q.is_udp)))
      ⊎ Foremost now q
          (cache (owner_cache_hash q.local_port q.is_udp))
          (get_owner_event_pid now q cache)
unfolding get_owner_event_pid level
get_owner_event_pid-Foremost now q cache =
    elim (best_owner-Outcome now q none 0 (cache (owner_cache_hash q.local_port q.is_udp))) [
      | inl (same, all) ↦ inl (same, none-Fits now q _ all)
      | inr (f, b) ↦ inr f
    ]
