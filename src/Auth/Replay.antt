-- ===== src/Auth/Replay.antt =====
-- How long a nonce is refused (the replay guard of api-auth-contract.js).
use lqc_liquidity_chain.Common.{
  ℕ, ◌+◌, ◌≤◌, ◌<◌, ◌≡◌, refl, ◌⊎◌, inl, inr, true, false, Option, some, [], ◌∷◌, ◌++◌, arith,
  if◌then◌else◌, same_text, same_text_refl, length, ok, err, ◌>>◌,
}
use lqc_liquidity_chain.Common.Dict.{Dict, contains, insert}
use lqc_liquidity_chain.Common.Text.{Text, codes}
use lqc_liquidity_chain.Auth.{
  ReplayGuard, drop_expired, drop_oldest, prune, replay_key, consume, Verifier, KeyDescriptor,
  Permission, Signed, check_request, verify_signed_request,
}

-- The dictionary holds the key, under a time after `t`.
abbrev Holds : Text → ℕ → Dict ℕ → Type 0
Holds k t [] = ⊥
Holds k t ((j, x) ∷ d) = ((same_text k j ≡ true) × (t < x)) ⊎ Holds k t d

contains_of_Holds : (k : Text) (t : ℕ) (d : Dict ℕ) → Holds k t d → contains k d ≡ true
contains_of_Holds k t [] h = absurd h
contains_of_Holds k t ((j, x) ∷ d) h = ground (arith, contains_of_Holds k t d)

drop_expired-Holds :
    (k : Text) (now t : ℕ) (d : Dict ℕ) → now ≤ t → Holds k t d → Holds k t (drop_expired now d)
unfolding drop_expired
drop_expired-Holds k now t [] le h = h
drop_expired-Holds k now t ((j, x) ∷ d) le h = ground (arith, drop_expired-Holds k now t d le)

append-Holds : (k : Text) (t x : ℕ) (d : Dict ℕ) → t < x → Holds k t (d ++ ((k, x) ∷ []))
append-Holds k t x [] h = inl (same_text_refl k, h)
append-Holds k t x (e ∷ d) h = inr (append-Holds k t x d h)

drop_oldest-Holds :
    (k : Text) (t x limit : ℕ) (d : Dict ℕ)
    → 0 < limit
    → t < x
    → Holds k t (drop_oldest limit (d ++ ((k, x) ∷ [])))
unfolding drop_oldest
drop_oldest-Holds k t x limit [] pos h = ground (arith, same_text_refl k)
drop_oldest-Holds k t x limit (e ∷ d) pos h =
    ground (arith, drop_oldest-Holds k t x limit d pos h, append-Holds k t x d h)

pub drop_oldest_bound : (limit : ℕ) (d : Dict ℕ) → length (drop_oldest limit d) ≤ limit
unfolding drop_oldest
drop_oldest_bound limit [] = omega arith
drop_oldest_bound limit (e ∷ d) = ground (arith, drop_oldest_bound limit d)

drop_oldest_same : (limit : ℕ) (d : Dict ℕ) → length d ≤ limit → drop_oldest limit d ≡ d
unfolding drop_oldest
drop_oldest_same limit [] h = refl
drop_oldest_same limit (e ∷ d) h = ground arith

pub length-drop_expired : (now : ℕ) (d : Dict ℕ) → length (drop_expired now d) ≤ length d
unfolding drop_expired
length-drop_expired now [] = omega arith
length-drop_expired now ((j, x) ∷ d) = ground (arith, length-drop_expired now d)

drop_expired-append :
    (k : Text) (now x : ℕ) (d : Dict ℕ)
    → now < x
    → drop_expired now (d ++ ((k, x) ∷ [])) ≡ drop_expired now d ++ ((k, x) ∷ [])
unfolding drop_expired
drop_expired-append k now x [] h = ground arith
drop_expired-append k now x ((j, y) ∷ d) h = ground (arith, drop_expired-append k now x d h)

-- A key that is not there goes to the end.
pub insert_new :
    (k : Text) (x : ℕ) (d : Dict ℕ) → contains k d ≡ false → insert k x d ≡ d ++ ((k, x) ∷ [])
insert_new k x [] h = refl
insert_new k x ((j, y) ∷ d) h = ground (arith, insert_new k x d)

-- No entry of the key outlives `t`.
abbrev pub Ends : Text → ℕ → Dict ℕ → Type 0
Ends k t [] = Unit
Ends k t ((j, x) ∷ d) = (same_text k j ≡ true → x ≤ t) × Ends k t d

pub Ends-append :
    (k : Text) (x : ℕ) (d : Dict ℕ) → contains k d ≡ false → Ends k x (d ++ ((k, x) ∷ []))
Ends-append k x [] h = (λ _. omega arith, tt)
Ends-append k x ((j, y) ∷ d) h = (λ same. absurd (ground arith), Ends-append k x d (ground arith))

pub drop_oldest-Ends :
    (k : Text) (t limit : ℕ) (d : Dict ℕ) → Ends k t d → Ends k t (drop_oldest limit d)
unfolding drop_oldest
drop_oldest-Ends k t limit [] h = h
drop_oldest-Ends k t limit (e ∷ d) h = ground (arith, drop_oldest-Ends k t limit d h.1)

pub drop_expired_gone :
    (k : Text) (t now : ℕ) (d : Dict ℕ)
    → t ≤ now
    → Ends k t d
    → contains k (drop_expired now d) ≡ false
unfolding drop_expired
drop_expired_gone k t now [] le h = refl
drop_expired_gone k t now ((j, x) ∷ d) le h =
    ground (arith, h.0, drop_expired_gone k t now d le h.1)

pub drop_expired_absent :
    (k : Text) (now : ℕ) (d : Dict ℕ)
    → contains k d ≡ false
    → contains k (drop_expired now d) ≡ false
unfolding drop_expired
drop_expired_absent k now [] h = refl
drop_expired_absent k now ((j, x) ∷ d) h = ground (arith, drop_expired_absent k now d)

-- What the guard sees after an accepted nonce: the earlier entries, then the new one.
abbrev pub entries_with : Text → ℕ → ReplayGuard → Dict ℕ
entries_with k now g =
    drop_oldest g.limit
      (drop_expired now (drop_oldest g.limit (drop_expired now g.seen)) ++ ((k, now + g.ttl) ∷ []))

pub consume-eq-ok :
    (key_id nonce : Text) (now : ℕ) (g : ReplayGuard)
    → 0 < g.ttl
    → (consume key_id nonce now g).0 ≡ ok tt
    → let k = replay_key key_id nonce in
      (same_text k (codes ":") ≡ false)
      × (contains k (drop_oldest g.limit (drop_expired now g.seen)) ≡ false)
      × ((consume key_id nonce now g).1 ≡ record g { seen = entries_with k now g })
unfolding consume prune
consume-eq-ok key_id nonce now g pos h =
    let k = replay_key key_id nonce in
    let kept = drop_oldest g.limit (drop_expired now g.seen) in
    ground (arith, insert_new k (now + g.ttl) kept, drop_expired-append k now (now + g.ttl) kept)

-- The second time: the entries are those that have not expired.
pub consume_at :
    (key_id nonce : Text) (now : ℕ) (g : ReplayGuard)
    → length g.seen ≤ g.limit
    → same_text (replay_key key_id nonce) (codes ":") ≡ false
    → (consume key_id nonce now g).0 ≡ (
        if contains (replay_key key_id nonce) (drop_expired now g.seen)
        then err "REPLAY_DETECTED"
        else ok tt)
unfolding consume prune
consume_at key_id nonce now g small key =
    rw
      (
        key,
        drop_oldest_same g.limit (drop_expired now g.seen)
            (omega (arith, length-drop_expired now g.seen)),
      )
      (ground arith)

-- Where the same nonce comes in next after it was accepted, it is refused before its time has passed
-- and accepted from then on; and the guard holds no more entries than its limit.
consume_again :
    (key_id nonce : Text) (now later : ℕ) (g : ReplayGuard)
    → 0 < g.ttl
    → 0 < g.limit
    → now ≤ later
    → (consume key_id nonce now g).0 ≡ ok tt
    → let g' = (consume key_id nonce now g).1 in
      (later < now + g.ttl → (consume key_id nonce later g').0 ≡ err "REPLAY_DETECTED")
      × (now + g.ttl ≤ later → (consume key_id nonce later g').0 ≡ ok tt)
      × (length g'.seen ≤ g.limit)
consume_again key_id nonce now later g pos room le h =
    let k = replay_key key_id nonce in
    let kept = drop_oldest g.limit (drop_expired now g.seen) in
    let (key, fresh, after) = consume-eq-ok key_id nonce now g pos h in
    let g' : ReplayGuard = record g { seen = entries_with k now g } in
    let small : length g'.seen ≤ g.limit = drop_oldest_bound g.limit _ in
    let again = consume_at key_id nonce later g' small key in
    rw after (
      λ early.
          let held =
            drop_expired-Holds k later later (entries_with k now g) (omega arith) (
              drop_oldest-Holds k later (now + g.ttl) g.limit (drop_expired now kept) room early) in
          rw again (rw (contains_of_Holds k later _ held)),
      λ late.
          let ends =
            drop_oldest-Ends k (now + g.ttl) g.limit
              (drop_expired now kept ++ ((k, now + g.ttl) ∷ []))
              (Ends-append k (now + g.ttl) (drop_expired now kept)
                (drop_expired_absent k now kept fresh)) in
          rw again (rw (drop_expired_gone k (now + g.ttl) later (entries_with k now g) late ends)),
      small,
    )

verify-accepted :
    (v : Verifier) (key : Option KeyDescriptor) (perm : Permission) (s : Signed) (now : ℕ)
    (g : ReplayGuard) {k : KeyDescriptor}
    → check_request v key perm s now ≡ ok k
    → verify_signed_request v key perm s now (some g) ≡ (
      (consume k.key_id s.request.nonce now g).0
          >> ok (record { key_id = k.key_id; permission = perm }),
      some (consume k.key_id s.request.nonce now g).1,
    )
unfolding verify_signed_request
verify-accepted v key perm s now g e = rw (e, verify_signed_request)

-- A signed request that was accepted is accepted a second time once the guard has forgotten its
-- nonce, whenever its timestamp, which may lie ahead of the server by as much as the window, still
-- passes the check of the time then: a guard whose time to live is the window does not prevent it.
pub verify_again :
    (v : Verifier) (key : Option KeyDescriptor) (perm : Permission) (s : Signed) (now later : ℕ)
    (g : ReplayGuard) {k : KeyDescriptor}
    → 0 < g.ttl
    → 0 < g.limit
    → now + g.ttl ≤ later
    → check_request v key perm s now ≡ ok k
    → check_request v key perm s later ≡ ok k
    → (consume k.key_id s.request.nonce now g).0 ≡ ok tt
    → let (first, guard) = verify_signed_request v key perm s now (some g) in
      (first ≡ ok (record { key_id = k.key_id; permission = perm }))
      × ((verify_signed_request v key perm s later guard).0
          ≡ ok (record { key_id = k.key_id; permission = perm }))
verify_again v key perm s now later g {k} pos room late e e' h =
    let (_, again, _) =
      consume_again k.key_id s.request.nonce now later g pos room (omega arith) h in
    let g' = (consume k.key_id s.request.nonce now g).1 in
    rw (verify-accepted v key perm s now g e)
      (rw h refl, rw (verify-accepted v key perm s later g' e') (rw (again late)))
