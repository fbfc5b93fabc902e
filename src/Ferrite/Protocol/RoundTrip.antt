-- ===== src/Ferrite/Protocol/RoundTrip.antt =====
-- Requests of project-05-ferrite-v2.rs written as lines and parsed back.
use model_lib.Base.{ℕ, ◌≡◌, refl, ap, ◌∙◌, true, List, [], ◌∷◌, ◌++◌, codes, arith}
use model_lib.Ferrite.Protocol.Defs.{
  Request, ping, get, set, del, request, tokens, is_command, parse,
}
use model_lib.Ferrite.Protocol.Words.{IsWord, tokens-word, tokens-last}
use model_lib.Ferrite.Protocol.Parse.{name_of, args_of, parse-iff-command}

-- A request as a client writes it, without the end of the line.
unfoldable pub render : Request → List ℕ
render ping = codes "PING"
render (get k) = codes "GET" ++ (32 ∷ k)
render (set k v) = codes "SET" ++ (32 ∷ (k ++ 32 ∷ v))
render (del k) = codes "DEL" ++ (32 ∷ k)

abbrev pub HasWords : Request → Type 0
HasWords ping = Unit
HasWords (get k) = IsWord k
HasWords (set k v) = IsWord k × IsWord v
HasWords (del k) = IsWord k

last : (w : List ℕ) → IsWord w → tokens w ≡ w ∷ []
last [] h = absurd (omega arith)
last (c ∷ w) (h, d) = tokens-last c w d

first : (w : List ℕ) (rest : List ℕ) → IsWord w → tokens (w ++ 32 ∷ rest) ≡ w ∷ tokens rest
first [] rest h = absurd (omega arith)
first (c ∷ w) rest (h, d) = tokens-word c w 32 rest d refl

words-render : (r : Request) → HasWords r → tokens (render r) ≡ name_of r ∷ args_of r
unfolding render
words-render ping h = last (codes "PING") (omega arith, (refl, (refl, (refl, (refl, tt)))))
words-render (get k) h =
    first (codes "GET") k (omega arith, (refl, (refl, (refl, tt))))
    ∙ ap (λ l. codes "GET" ∷ l) (last k h)
words-render (set k v) (hk, hv) =
    first (codes "SET") (k ++ 32 ∷ v) (omega arith, (refl, (refl, (refl, tt))))
    ∙ ap (λ l. codes "SET" ∷ l) (first k v hk ∙ ap (λ l. k ∷ l) (last v hv))
words-render (del k) h =
    first (codes "DEL") k (omega arith, (refl, (refl, (refl, tt))))
    ∙ ap (λ l. codes "DEL" ∷ l) (last k h)

is_itself : (r : Request) → is_command (name_of r) (name_of r) ≡ true
unfolding is_command
is_itself ping = refl
is_itself (get k) = refl
is_itself (set k v) = refl
is_itself (del k) = refl

-- A request whose key and value are words, written on a line, parses back to itself.
pub parse-render : (r : Request) → HasWords r → parse (render r) ≡ request r
parse-render r h = (parse-iff-command (render r) r).1 (name_of r, words-render r h, is_itself r)
