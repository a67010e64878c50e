-- ===== src/Parser/Ends.antt =====
-- Parses (util/parser.hh) that run to their end, and what they return.
use tiny_tcp_over_tun.Common.{
  ℕ, ◌≤◌, ◌≡◌, List, [], ◌∷◌, ◌++◌, length, false, Option, none, some, arith, refl, ap, ◌∙◌, le→leb,
}
use tiny_tcp_over_tun.Ref.{Ref, get}
use tiny_tcp_over_tun.Parser.{
  Parser, Parse, pure, ◌>>=◌, truncate, all_remaining, concatenate, concatenate_all_remaining,
  buffer,
}
use tiny_tcp_over_tun.Parser.Buffers
use tiny_tcp_over_tun.Parser.Content.{concat}
use tiny_tcp_over_tun.Parser.Holds.{Holds, strings, Spread, dump_all-Spread, buffer-Has}
use tiny_tcp_over_tun.Parser.Gives.{Gives}

-- The step returns a value with `P`, without an error.
pub record Ends {A : Type 0} (m : Parse A) (p : Parser) (P : A → Type 0) : Type 0 where
  pub value : A
  pub after : Parser
  pub result : m p ≡ some (value, after)
  pub fine : after.error ≡ false
  pub holds : P value

pub pure-Ends :
    {A : Type 0} {P : A → Type 0} (a : A) (p : Parser) → p.error ≡ false → P a → Ends (pure a) p P
unfolding pure
pure-Ends a p e h = record { value = a; after = p; result = refl; fine = e; holds = h }

pub and_end :
    {A B : Type 0} (m : Parse A) (f : A → Parse B) {P : B → Type 0} {p : Parser} {a : A}
    {rest : List ℕ}
    → Gives m p a rest
    → ((q : Parser) → Holds q rest → Ends (f a) q P)
    → Ends (m >>= f) p P
unfolding ◌>>=◌
and_end m f g k =
    let n = k g.after g.holds in
    record {
      value = n.value;
      after = n.after;
      result =
          ap (λ o. elim o as (λ _. Option (_ × Parser)) [ none ↦ none | some r ↦ f r.0 r.1 ])
            g.result
          ∙ n.result;
      fine = n.fine;
      holds = n.holds;
    }

pub end_then :
    {A B : Type 0} (m : Parse A) (f : A → Parse B) {P : A → Type 0} {Q : B → Type 0} {p : Parser}
    → Ends m p P
    → ((a : A) (q : Parser) → P a → q.error ≡ false → Ends (f a) q Q)
    → Ends (m >>= f) p Q
unfolding ◌>>=◌
end_then m f g k =
    let n = k g.value g.after g.holds g.fine in
    record {
      value = n.value;
      after = n.after;
      result =
          ap (λ o. elim o as (λ _. Option (_ × Parser)) [ none ↦ none | some r ↦ f r.0 r.1 ])
            g.result
          ∙ n.result;
      fine = n.fine;
      holds = n.holds;
    }

pub all_remaining-Ends :
    (p : Parser) (bytes : List ℕ) → Holds p bytes → Ends all_remaining p (λ refs. Spread refs bytes)
unfolding all_remaining
all_remaining-Ends p bytes h = record {
  value = (Buffers.dump_all p.input).0;
  after = record p { input = (Buffers.dump_all p.input).1 };
  result = refl;
  fine = h.fine;
  holds = dump_all-Spread p.input bytes h.has;
}

concatenate_lem : (refs : List (Ref (List ℕ))) → concatenate refs ≡ concat (strings refs)
unfolding concatenate
concatenate_lem [] = refl
concatenate_lem (r ∷ refs) = ap (◌++◌ (get r)) (concatenate_lem refs)

pub concatenate_all_remaining-Ends :
    (p : Parser) (bytes : List ℕ)
    → Holds p bytes
    → Ends concatenate_all_remaining p (λ all. all ≡ bytes)
unfolding concatenate_all_remaining
concatenate_all_remaining-Ends p bytes h =
    end_then _ _ (all_remaining-Ends p bytes h)
      (λ refs q e fine. pure-Ends (concatenate refs) q fine (concatenate_lem refs ∙ e.content))

-- Bytes that are few enough are all kept.
pub truncate-Gives :
    (len : ℕ) (p : Parser) (bytes : List ℕ)
    → length bytes ≤ len
    → Holds p bytes
    → Gives (truncate len) p tt bytes
unfolding truncate Buffers.truncate
truncate-Gives len p bytes le h = record {
  after = p;
  result =
      let few : p.input.size ≤ len = omega (arith, h.has.size) in
      rw (le→leb p.input.size len few) refl;
  holds = h;
}

pub buffer-Gives :
    (p : Parser) (bytes : List ℕ)
    → Holds p bytes
    → Gives buffer p (Buffers.buffer p.input) bytes × (concat (Buffers.buffer p.input) ≡ bytes)
unfolding buffer
buffer-Gives p bytes h =
    (record { after = p; result = refl; holds = h }, buffer-Has p.input bytes h.has)
