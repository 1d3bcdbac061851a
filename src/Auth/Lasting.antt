-- ===== src/Auth/Lasting.antt =====
-- How long an accepted nonce is refused while other requests come in (the replay guard of
-- api-auth-contract.js).
use lqc_liquidity_chain.Common.{
  ℕ, suc, ◌+◌, ◌≤◌, ◌<◌, ◌≡◌, refl, ◌⊎◌, inl, inr, true, false, List, [], ◌∷◌, ◌++◌, arith, sym,
  ◌∙◌, ltb, All, ap, if◌then◌else◌, leb, same_text, same_text_refl, same_text_sound, length, ok,
  err, Bool-cases,
}
use lqc_liquidity_chain.Common.Dict.{Dict, contains, insert}
use lqc_liquidity_chain.Common.Text.{Text, codes}
use mathlib.Core.Path.{subst}
use lqc_liquidity_chain.Auth.{ReplayGuard, drop_expired, drop_oldest, prune, replay_key, consume}
use lqc_liquidity_chain.Auth.Replay.{
  drop_oldest_bound, length-drop_expired, insert_new, Ends, Ends-append, drop_oldest-Ends,
  drop_expired_gone, drop_expired_absent, entries_with, consume-eq-ok, consume_at,
}

-- The dictionary holds the key until `t`, with at most `m` entries behind it.
abbrev Kept : Text → ℕ → ℕ → Dict ℕ → Type 0
Kept k t m [] = ⊥
Kept k t m ((j, x) ∷ d) = ((same_text k j ≡ true) × (x ≡ t) × (length d ≤ m)) ⊎ Kept k t m d

contains_of_Kept : (k : Text) (t m : ℕ) (d : Dict ℕ) → Kept k t m d → contains k d ≡ true
contains_of_Kept k t m [] h = absurd h
contains_of_Kept k t m ((j, x) ∷ d) h = ground (arith, contains_of_Kept k t m d)

drop_expired-Kept :
    (k : Text) (t m now : ℕ) (d : Dict ℕ) → now < t → Kept k t m d → Kept k t m (drop_expired now d)
unfolding drop_expired
drop_expired-Kept k t m now [] early h = h
drop_expired-Kept k t m now ((j, x) ∷ d) early h =
    ground (arith, drop_expired-Kept k t m now d early, length-drop_expired now d)

drop_oldest-Kept :
    (k : Text) (t m limit : ℕ) (d : Dict ℕ)
    → m < limit
    → Kept k t m d
    → Kept k t m (drop_oldest limit d)
unfolding drop_oldest
drop_oldest-Kept k t m limit [] room h = h
drop_oldest-Kept k t m limit (e ∷ d) room h = ground (arith, drop_oldest-Kept k t m limit d room)

length-append_one : (e : Text × ℕ) (d : Dict ℕ) → length (d ++ (e ∷ [])) ≡ suc (length d)
length-append_one e [] = refl
length-append_one e (x ∷ d) = ap suc (length-append_one e d)

append-Kept :
    (k : Text) (t m : ℕ) (e : Text × ℕ) (d : Dict ℕ)
    → Kept k t m d
    → Kept k t (suc m) (d ++ (e ∷ []))
append-Kept k t m e [] h = absurd h
append-Kept k t m e (x ∷ d) h = ground (arith, append-Kept k t m e d, length-append_one e d)

append_self-Kept : (k : Text) (t : ℕ) (d : Dict ℕ) → Kept k t 0 (d ++ ((k, t) ∷ []))
append_self-Kept k t [] = inl (same_text_refl k, refl, omega arith)
append_self-Kept k t (x ∷ d) = inr (append_self-Kept k t d)

suc-Kept : (k : Text) (t m : ℕ) (d : Dict ℕ) → Kept k t m d → Kept k t (suc m) d
suc-Kept k t m [] h = h
suc-Kept k t m (x ∷ d) h = ground (arith, suc-Kept k t m d)

Ends-append_other :
    (k j : Text) (t x : ℕ) (d : Dict ℕ)
    → same_text k j ≡ false
    → Ends k t d
    → Ends k t (d ++ ((j, x) ∷ []))
Ends-append_other k j t x [] other h = (λ same. absurd (ground arith), tt)
Ends-append_other k j t x (e ∷ d) other (h, hs) = (h, Ends-append_other k j t x d other hs)

drop_expired-Ends : (k : Text) (t now : ℕ) (d : Dict ℕ) → Ends k t d → Ends k t (drop_expired now d)
unfolding drop_expired
drop_expired-Ends k t now [] h = h
drop_expired-Ends k t now ((j, x) ∷ d) (h, hs) = elim (Bool-cases (leb x now)) [
  | inl t' ↦ rw t' (drop_expired-Ends k t now d hs)
  | inr f ↦ rw f (h, drop_expired-Ends k t now d hs)
]

-- The guard refuses the key until `t`, whatever at most `m` requests behind it were.
abbrev Watches : Text → ℕ → ℕ → ReplayGuard → Type 0
Watches k t m g = Kept k t m g.seen × Ends k t g.seen × (length g.seen ≤ g.limit)

prune-Watches :
    (k : Text) (t m now : ℕ) (g : ReplayGuard)
    → now < t
    → m < g.limit
    → Kept k t m g.seen
    → Ends k t g.seen
    → Watches k t m (prune now g)
unfolding prune
prune-Watches k t m now g early room kept ends = (
  drop_oldest-Kept k t m g.limit (drop_expired now g.seen) room
      (drop_expired-Kept k t m now g.seen early kept),
  drop_oldest-Ends k t g.limit (drop_expired now g.seen) (drop_expired-Ends k t now g.seen ends),
  drop_oldest_bound g.limit (drop_expired now g.seen),
)

insert-Kept :
    (k j : Text) (t m x : ℕ) (d : Dict ℕ)
    → contains j d ≡ false
    → Kept k t m d
    → Ends k t d
    → Kept k t (suc m) (insert j x d) × Ends k t (insert j x d)
insert-Kept k j t m x d new kept ends = elim (Bool-cases (same_text k j)) [
  | inl same ↦
      let there =
        subst (λ i. contains i d ≡ true) (same_text_sound k j same)
          (contains_of_Kept k t m d kept) in
      absurd (ground (arith, there, new))
  | inr other ↦
      subst (λ s. Kept k t (suc m) s × Ends k t s) (sym (insert_new j x d new))
        (append-Kept k t m (j, x) d kept, Ends-append_other k j t x d other ends)
]

-- A further request leaves the guard on watch, with one entry more behind the nonce at most.
consume-Watches :
    (k : Text) (t m : ℕ) (key_id nonce : Text) (now : ℕ) (g : ReplayGuard)
    → now < t
    → suc m < g.limit
    → Watches k t m g
    → Watches k t (suc m) (consume key_id nonce now g).1
      × ((consume key_id nonce now g).1.limit ≡ g.limit)
unfolding consume prune
consume-Watches k t m key_id nonce now g early room (kept, ends, small) =
    let key = replay_key key_id nonce in
    let after = (consume key_id nonce now g).1 in
    let p = prune now g in
    let (kept', ends', small') = prune-Watches k t m now g early (omega arith) kept ends in
    elim (Bool-cases (same_text key (codes ":"))) [
      | inl blank ↦
          let same : after ≡ g = rw (blank, consume) refl in
          subst (λ x. Watches k t (suc m) x × (x.limit ≡ g.limit)) (sym same)
            ((suc-Kept k t m g.seen kept, ends, small), refl)
      | inr named ↦ elim (Bool-cases (contains key p.seen)) [
        | inl known ↦
            let same : after ≡ p = rw (named, consume) (rw known refl) in
            subst (λ x. Watches k t (suc m) x × (x.limit ≡ g.limit)) (sym same)
              ((suc-Kept k t m p.seen kept', ends', small'), refl)
        | inr new ↦
            let q : ReplayGuard = record p { seen = insert key (now + p.ttl) p.seen } in
            let same : after ≡ prune now q = rw (named, consume) (rw new refl) in
            let (kept'', ends'') = insert-Kept k key t m (now + p.ttl) p.seen new kept' ends' in
            subst (λ x. Watches k t (suc m) x × (x.limit ≡ g.limit)) (sym same)
              (prune-Watches k t (suc m) now q early room kept'' ends'', refl)
      ]
    ]

-- Another request that the guard is asked about.
pub record Attempt : Type 0 where
  pub key_id : Text
  pub nonce : Text
  pub time : ℕ

-- The guard after one request after the other.
pub consume_all : List Attempt → ReplayGuard → ReplayGuard
consume_all [] g = g
consume_all (a ∷ others) g = consume_all others (consume a.key_id a.nonce a.time g).1

consume_all-Watches :
    (k : Text) (t m : ℕ) (others : List Attempt) (g : ReplayGuard)
    → All (λ a. a.time < t) others
    → length others + m < g.limit
    → Watches k t m g
    → (after : ℕ) × Watches k t after (consume_all others g)
unfolding consume_all
consume_all-Watches k t m [] g early room w = (m, w)
consume_all-Watches k t m (a ∷ others) g (now, early) room w =
    let (w', same) = consume-Watches k t m a.key_id a.nonce a.time g now (omega arith) w in
    let room' : length others + suc m < (consume a.key_id a.nonce a.time g).1.limit =
      rw same (omega arith) in
    consume_all-Watches k t (suc m) others (consume a.key_id a.nonce a.time g).1 early room' w'

first-Watches :
    (key_id nonce : Text) (now : ℕ) (g : ReplayGuard)
    → 0 < g.limit
    → contains (replay_key key_id nonce) (drop_oldest g.limit (drop_expired now g.seen)) ≡ false
    → Watches
        (replay_key key_id nonce)
        (now + g.ttl)
        0
        (record g { seen = entries_with (replay_key key_id nonce) now g })
first-Watches key_id nonce now g room fresh =
    let k = replay_key key_id nonce in
    let t = now + g.ttl in
    let kept = drop_expired now (drop_oldest g.limit (drop_expired now g.seen)) in
    (
      drop_oldest-Kept k t 0 g.limit (kept ++ ((k, t) ∷ [])) room (append_self-Kept k t kept),
      drop_oldest-Ends k t g.limit (kept ++ ((k, t) ∷ [])) (
          Ends-append k t kept
            (drop_expired_absent k now (drop_oldest g.limit (drop_expired now g.seen)) fresh)),
      drop_oldest_bound g.limit (kept ++ ((k, t) ∷ [])),
    )

-- Where a nonce was accepted, and then fewer other requests than the guard has places were asked
-- about, all before the nonce expires, the nonce is refused until it expires and is accepted again
-- from then on; and the guard holds no more entries than its limit.
pub consume_lasting :
    (key_id nonce : Text) (now later : ℕ) (others : List Attempt) (g : ReplayGuard)
    → 0 < g.ttl
    → length others < g.limit
    → All (λ a. a.time < now + g.ttl) others
    → (consume key_id nonce now g).0 ≡ ok tt
    → let g' = consume_all others (consume key_id nonce now g).1 in
      ((consume key_id nonce later g').0
        ≡ (if ltb later (now + g.ttl) then err "REPLAY_DETECTED" else ok tt))
      × (length g'.seen ≤ g'.limit)
consume_lasting key_id nonce now later others g pos room early h =
    let k = replay_key key_id nonce in
    let t = now + g.ttl in
    let (key, fresh, after) = consume-eq-ok key_id nonce now g pos h in
    let first : ReplayGuard = record g { seen = entries_with k now g } in
    let g' = consume_all others first in
    let (m, (kept, ends, small)) =
      consume_all-Watches k t 0 others first early (omega arith)
        (first-Watches key_id nonce now g (omega arith) fresh) in
    let again = consume_at key_id nonce later g' small key in
    let answer : (consume key_id nonce later g').0
        ≡ (if ltb later t then err "REPLAY_DETECTED" else ok tt) =
      elim (Bool-cases (ltb later t)) [
        | inl soon ↦
            let held =
              contains_of_Kept k t m (drop_expired later g'.seen)
                (drop_expired-Kept k t m later g'.seen (ground arith) kept) in
            again ∙ rw (held, soon) refl
        | inr late ↦
            let gone = drop_expired_gone k t later g'.seen (ground arith) ends in
            again ∙ rw (gone, late) refl
      ] in
    rw after (answer, small)
