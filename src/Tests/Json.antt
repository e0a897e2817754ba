-- ===== src/Tests/Json.antt =====
-- A concrete codec for the environment variables, in place of encoding/json: each character is
-- marked, and each text ends with a full stop.
use executr.Prelude.{◌≡◌, ◌∙◌, ap, refl, Bool, true, false, List, [], ◌∷◌, String, ◌==◌}
use Prim.Native.Char.{Char, code}
use executr.Models.{EnvMap}
use executr.Server.Convert.{EnvJson, variable}

abbrev flatten : EnvMap → List String
flatten [] = []
flatten ((k, v) ∷ m) = k ∷ v ∷ flatten m

abbrev pair_up : List String → EnvMap
pair_up [] = []
pair_up (k ∷ []) = []
pair_up (k ∷ v ∷ l) = (k, v) ∷ pair_up l

pub pair_up-flatten : (m : EnvMap) → pair_up (flatten m) ≡ m
pair_up-flatten [] = refl
pair_up-flatten ((k, v) ∷ m) = ap (◌∷◌ (k, v)) (pair_up-flatten m)

abbrev write_text : String → String → String
write_text String.[] rest = String.◌∷◌ "." rest
write_text (String.◌∷◌ c s) rest = String.◌∷◌ "+" (String.◌∷◌ c (write_text s rest))

abbrev write_texts : List String → String
write_texts [] = String.[]
write_texts (s ∷ l) = write_text s (write_texts l)

abbrev add : Char → List String → List String
add c [] = []
add c (s ∷ l) = String.◌∷◌ c s ∷ l

-- `true` where the next character is a mark.
abbrev read_texts : Bool → String → List String
read_texts b String.[] = []
read_texts true (String.◌∷◌ m s) = elim (code m == 46) [
  | true ↦ "" ∷ read_texts true s
  | false ↦ read_texts false s
]
read_texts false (String.◌∷◌ c s) = add c (read_texts true s)

read_write : (s rest : String) → read_texts true (write_text s rest) ≡ s ∷ read_texts true rest
read_write String.[] rest = refl
read_write (String.◌∷◌ c s) rest = ap (add c) (read_write s rest)

pub read_write_texts : (l : List String) → read_texts true (write_texts l) ≡ l
read_write_texts [] = refl
read_write_texts (s ∷ l) = read_write s (write_texts l) ∙ ap (◌∷◌ s) (read_write_texts l)

abbrev pub json : EnvJson
json = record {
  marshal = λ m. write_texts (flatten m);
  unmarshal = λ s. pair_up (read_texts true s);
  unmarshal-marshal =
      λ m k is_map. ap (variable k) (ap pair_up (read_write_texts (flatten m)) ∙ pair_up-flatten m);
}
