-- ===== src/TcpSender/Push/Marks.antt =====
-- The tests on a segment of `TCPSender::push` (src/tcp_sender.cc): what they say when they hold.
use tiny_tcp_over_tun.Common.{
  ℕ, ◌+◌, ◌≤◌, ◌<◌, ◌≡◌, List, [], ◌∷◌, length, Bool, true, false, not, ◌&&◌, ◌||◌, Bool-cases, ltb,
  ◌==◌, sub64, u64, arith, refl, ap, inl, inr,
}
use tiny_tcp_over_tun.Messages.{TcpSenderMessage, sequence_length, flag}

-- An empty segment has no FIN.
pub no_fin : (m : TcpSenderMessage) → sequence_length m ≡ 0 → m.fin ≡ false
unfolding sequence_length
no_fin m e = elim (Bool-cases m.fin) [ inl f ↦ absurd (omega (arith, ap flag f)) | inr f ↦ f ]

pub parts : (syn : Bool) (size : ℕ) → flag syn + size + flag false ≡ 0 → (syn ≡ false) × (size ≡ 0)
parts true size z = absurd (omega arith)
parts false size z = (refl, omega arith)

pub no_bytes : (bytes : List ℕ) → length bytes ≡ 0 → bytes ≡ []
no_bytes [] h = refl
no_bytes (x ∷ bytes) h = absurd (omega arith)

-- With nothing left to send and room for a FIN, its test fails on a closed stream only when it has
-- been sent.
pub fin_sent_facts :
    (closed sent' : Bool) (after n size : ℕ)
    → closed ≡ true
    → n ≡ 0
    → size ≡ 0
    → 0 < after
    → after < u64
    → (closed && not sent' && ltb 0 (sub64 after n) && (n == size)) ≡ false
    → sent' ≡ true
fin_sent_facts closed sent' after n size c hn hs ha hu e = ground arith

pub marked : (b : Bool) → true ≡ (b || true)
marked true = refl
marked false = refl

pub unmarked : (b : Bool) → b ≡ (b || false)
unmarked true = refl
unmarked false = refl

-- What the test for a FIN says.
pub fin_facts :
    (closed sent' : Bool) (after n size : ℕ)
    → n ≤ after
    → after < u64
    → (closed && not sent' && ltb 0 (sub64 after n) && (n == size)) ≡ true
    → (closed ≡ true) × (n < after) × (n ≡ size)
fin_facts closed sent' after n size h k e = ground arith
