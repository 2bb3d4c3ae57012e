-- ===== src/Wol/Sending.antt =====
-- internal/wol/wol.go, Wake: the attempts that it makes and what it reports.
use wakehub.Base.{
  ℕ, suc, zero, ◌+◌, ◌<◌, ℤ, ◌≡◌, refl, ◌↔◌, ◌⊎◌, inl, inr, String, List, [], ◌∷◌, Option, none,
  some, Result, ok, err, arith,
}
use wakehub.Wol.{
  attempted, Attempt, failed, wrote, Net, Progress, MagicPacket, new_magic_packet, packet_bytes,
  targets, send_repeats, send_targets, rounds, port_or_nine, repeat_or_three, outcome, wake,
}

-- One of the attempts i, i + 1, …, i + left - 1 to send to this host writes the whole packet.
abbrev Reaches : Net → String → ℤ → List ℕ → ℕ → ℕ → Type 0
Reaches net host port payload i zero = ⊥
Reaches net host port payload i (suc left) =
    (net.attempt host port i payload ≡ wrote 102) ⊎ Reaches net host port payload (i + 1) left

-- One of the hosts resolves and is reached.
abbrev pub ReachesSome : Net → ℤ → List ℕ → ℕ → List String → Type 0
ReachesSome net port payload repeat [] = ⊥
ReachesSome net port payload repeat (host ∷ hosts) =
    ((net.resolve host port ≡ none) × Reaches net host port payload 0 repeat)
    ⊎ ReachesSome net port payload repeat hosts

attempted-pos :
    (a : Attempt) (p : Progress) → (0 < (attempted a p).sent) ↔ ((0 < p.sent) ⊎ (a ≡ wrote 102))
unfolding attempted
attempted-pos (failed e) p = ground arith
attempted-pos (wrote n) p = ground arith

module _ {A B C D E : Type 0} where
  regroup : A ↔ (B ⊎ C) → B ↔ (D ⊎ E) → A ↔ (D ⊎ (E ⊎ C))
  regroup f g = (λ a. to (f.0 a), from)
    where
      to : B ⊎ C → D ⊎ (E ⊎ C)
      to (inl b) = elim (g.0 b) [ inl d ↦ inl d | inr e ↦ inr (inl e) ]
      to (inr c) = inr (inr c)

      from : D ⊎ (E ⊎ C) → A
      from (inl d) = f.1 (inl (g.1 (inl d)))
      from (inr (inl e)) = f.1 (inl (g.1 (inr e)))
      from (inr (inr c)) = f.1 (inr c)

send_repeats-pos :
    (net : Net) (host : String) (port : ℤ) (payload : List ℕ) (i left : ℕ) (p : Progress)
    → (0 < (send_repeats net host port payload i left p).sent)
      ↔ ((0 < p.sent) ⊎ Reaches net host port payload i left)
unfolding send_repeats
send_repeats-pos net host port payload i zero p = ground arith
send_repeats-pos net host port payload i (suc left) p =
    regroup
      (send_repeats-pos net host port payload (i + 1) left
        (attempted (net.attempt host port i payload) p))
      (attempted-pos (net.attempt host port i payload) p)

visited-pos :
    (o : Option String) (p q : Progress) {R : Type 0}
    → (0 < q.sent) ↔ ((0 < p.sent) ⊎ R)
    → (0 < (elim o as (λ _. Progress) [ some e ↦ record p { last_err = some e } | none ↦ q ]).sent)
      ↔ ((0 < p.sent) ⊎ ((o ≡ none) × R))
visited-pos none p q h = (
  λ s. elim (h.0 s) [ inl x ↦ inl x | inr r ↦ inr (refl, r) ],
  λ y. elim y [ inl x ↦ h.1 (inl x) | inr b ↦ h.1 (inr b.1) ],
)
visited-pos (some e) p q h = (λ s. inl s, λ y. elim y [ inl x ↦ x | inr b ↦ absurd (cc b.0) ])

send_targets-pos :
    (net : Net) (port : ℤ) (payload : List ℕ) (repeat : ℕ) (hosts : List String) (p : Progress)
    → (0 < (send_targets net port payload repeat hosts p).sent)
      ↔ ((0 < p.sent) ⊎ ReachesSome net port payload repeat hosts)
unfolding send_targets
send_targets-pos net port payload repeat [] p = ground arith
send_targets-pos net port payload repeat (host ∷ hosts) p =
    regroup
      (send_targets-pos net port payload repeat hosts (elim (net.resolve host port) [
        | some m ↦ record p { last_err = some m }
        | none ↦ send_repeats net host port payload 0 repeat p
      ]))
      (visited-pos (net.resolve host port) p (send_repeats net host port payload 0 repeat p)
        (send_repeats-pos net host port payload 0 repeat p))

drop_start : {A B : Type 0} → A ↔ ((0 < 0) ⊎ B) → A ↔ B
drop_start f = (λ a. elim (f.0 a) [ inl bad ↦ absurd (omega arith) | inr b ↦ b ], λ b. f.1 (inr b))

outcome-none_iff : (p : Progress) → (outcome p ≡ none) ↔ (0 < p.sent)
unfolding outcome
outcome-none_iff p = ground arith

-- What a run that may fail in two places reports, when its last part reports by `outcome`.
reported-none_iff :
    (r : Result MagicPacket) (t : Result (List String)) (start : Progress)
    (go : MagicPacket → List String → Progress) (R : MagicPacket → List String → Type 0)
    → ((mp : MagicPacket) (hosts : List String) → (0 < (go mp hosts).sent) ↔ R mp hosts)
    → ((elim r as (λ _. Progress × Option String) [
      | err e ↦ (start, some e)
      | ok mp ↦ elim t as (λ _. Progress × Option String) [
        | err e ↦ (start, some e)
        | ok hosts ↦ (go mp hosts, outcome (go mp hosts))
      ]
    ]).1
        ≡ none)
      ↔ ((mp : MagicPacket) × (hosts : List String) × (r ≡ ok mp) × (t ≡ ok hosts) × R mp hosts)
reported-none_iff (err e) t start go R h = (λ q. absurd (cc q), λ y. absurd (cc y.2))
reported-none_iff (ok mp) (err e) start go R h = (λ q. absurd (cc q), λ y. absurd (cc y.3))
reported-none_iff (ok mp) (ok hosts) start go R h = (
  λ q. (mp, hosts, refl, refl, (h mp hosts).0 ((outcome-none_iff (go mp hosts)).0 q)),
  λ y.
      (outcome-none_iff (go mp hosts)).1 (
        let e : mp ≡ y.0 = cc y.2 in let f : hosts ≡ y.1 = cc y.3 in rw (e, f) ((h y.0 y.1).1 y.4)),
)

-- `Wake` reports success exactly when the address makes a packet, there are hosts to send it to,
-- and for one of them that resolves one of the attempts writes all 102 bytes.
pub wake-sent_iff :
    (net : Net) (mac broadcast : String) (port repeat : ℤ)
    → ((wake net mac broadcast port repeat).1 ≡ none) ↔ (
        (mp : MagicPacket) × (hosts : List String) × (new_magic_packet mac ≡ ok mp)
        × (targets net broadcast ≡ ok hosts)
        × ReachesSome net
            (port_or_nine port)
            (packet_bytes mp)
            (rounds (repeat_or_three repeat))
            hosts)
unfolding wake
wake-sent_iff net mac broadcast port repeat =
    reported-none_iff (new_magic_packet mac) (targets net broadcast)
      (record { last_err = none; sent = 0 })
      (λ mp hosts.
        send_targets net (port_or_nine port) (packet_bytes mp) (rounds (repeat_or_three repeat))
          hosts (record { last_err = none; sent = 0 }))
      (λ mp hosts.
        ReachesSome net (port_or_nine port) (packet_bytes mp) (rounds (repeat_or_three repeat))
          hosts)
      (λ mp hosts. drop_start (
        send_targets-pos net (port_or_nine port) (packet_bytes mp) (rounds (repeat_or_three repeat))
          hosts (record { last_err = none; sent = 0 })))
