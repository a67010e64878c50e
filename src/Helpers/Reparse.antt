-- ===== src/Helpers/Reparse.antt =====
-- What has been serialized is what a new parser (util/helpers.hh) holds.
use tiny_tcp_over_tun.Common.{
  ℕ, ◌<◌, ◌≡◌, List, [], length, true, false, some, u64, refl, ap, ◌∙◌, sym, subst, map,
}
use tiny_tcp_over_tun.Ref.{Ref, copy}
use tiny_tcp_over_tun.Parser.{Parser, Parse}
use tiny_tcp_over_tun.Parser.Content.{concat, EmptiesLast}
use tiny_tcp_over_tun.Parser.Holds.{Holds, strings, AllOwned, AllOwned-copy, strings-copy, make-Has}
use tiny_tcp_over_tun.Parser.Serializer.{Serializer, new, finish}
use tiny_tcp_over_tun.Parser.Written.{Appends, new-Writes, finish-Writes}
use tiny_tcp_over_tun.Parser.Gives.{Gives}
use tiny_tcp_over_tun.Parser.Ends.{Ends}
use tiny_tcp_over_tun.Helpers.{new_parser, parse}

-- A new parser of owned strings.
pub new_parser-Holds :
    (refs : List (Ref (List ℕ))) (bytes : List ℕ)
    → AllOwned refs
    → EmptiesLast (strings refs)
    → concat (strings refs) ≡ bytes
    → length bytes < u64
    → (p : Parser) × (new_parser refs ≡ some p) × Holds p bytes
unfolding new_parser
new_parser-Holds refs bytes o f e h =
    let (input, made, has) = make-Has refs bytes o f e h in
    (
      record { input = input; error = false },
      rw (made, new_parser),
      record { fine = refl; has = has },
    )

-- The strings of a serializer, copied: a copy owns what it refers to.
pub reparse :
    (s : Serializer) (bytes : List ℕ)
    → Appends new s bytes
    → length bytes < u64
    → (p : Parser) × (new_parser (map copy (finish s)) ≡ some p) × Holds p bytes
reparse s bytes a h =
    let (full, content) = finish-Writes s bytes (a [] new-Writes) in
    new_parser-Holds (map copy (finish s)) bytes (AllOwned-copy (finish s))
      (subst EmptiesLast (sym (strings-copy (finish s))) full)
      (ap concat (strings-copy (finish s)) ∙ content) h

-- `parse` of such strings, by a step that succeeds.
pub parse-Gives :
    {A : Type 0} (read : Parse A) (refs : List (Ref (List ℕ))) (p : Parser) (a : A) (rest : List ℕ)
    → new_parser refs ≡ some p
    → Gives read p a rest
    → parse read refs ≡ some (a, true)
unfolding parse
parse-Gives read refs p a rest made g = rw (made, parse) (rw (g.result, g.holds.fine))

pub parse-Ends :
    {A : Type 0} {P : A → Type 0} (read : Parse A) (refs : List (Ref (List ℕ))) (p : Parser)
    → new_parser refs ≡ some p
    → Ends read p P
    → (a : A) × (parse read refs ≡ some (a, true)) × P a
unfolding parse
parse-Ends read refs p made e = (e.value, rw (made, parse) (rw (e.result, e.fine)), e.holds)
