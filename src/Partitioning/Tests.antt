-- ===== src/Partitioning/Tests.antt =====
-- Data of three elements, with a marshalizer that puts each length in front of its element.
use elrond_go.Prelude.{ℕ, zero, suc, ◌≡◌, refl, ap, ◌∙◌, some, List, [], ◌∷◌, ◌++◌, arith}
use elrond_go.Prelude.Bytes.{Bytes}
use elrond_go.Prelude.Maps.{All}
use elrond_go.Partitioning.Packer.{pack_data_in_chunks}
use elrond_go.Partitioning.Packed.{Fits, join, decode_all, pack_data_in_chunks_lem}

-- a one in front of each byte, a zero behind each element
abbrev quote : Bytes → Bytes
quote [] = 0 ∷ []
quote (b ∷ bs) = 1 ∷ b ∷ quote bs

abbrev encode : List Bytes → Bytes
encode [] = []
encode (x ∷ xs) = quote x ++ encode xs

abbrev in_front : ℕ → List Bytes → List Bytes
in_front b [] = []
in_front b (x ∷ xs) = (b ∷ x) ∷ xs

abbrev decode : Bytes → List Bytes
decode [] = []
decode (zero ∷ bs) = [] ∷ decode bs
decode (suc n ∷ []) = []
decode (suc n ∷ b ∷ bs) = in_front b (decode bs)

decode-quote : (x ys : Bytes) → decode (quote x ++ ys) ≡ x ∷ decode ys
decode-quote [] ys = refl
decode-quote (b ∷ bs) ys = ap (in_front b) (decode-quote bs ys)

round_trip : (xs : List Bytes) → decode (encode xs) ≡ xs
round_trip [] = refl
round_trip (x ∷ xs) = decode-quote x (encode xs) ∙ ap (λ t. x ∷ t) (round_trip xs)

abbrev data_of_three : List Bytes
data_of_three = (1 ∷ 2 ∷ []) ∷ (3 ∷ []) ∷ (4 ∷ 5 ∷ 6 ∷ []) ∷ []

pack_data_in_chunks_lem_example :
    (chunks : List Bytes) × (pack_data_in_chunks (λ xs. some (encode xs)) 4 (some data_of_three)
      ≡ some chunks)
    × (join (decode_all decode chunks) ≡ data_of_three)
    × All (Fits 4) (decode_all decode chunks)
pack_data_in_chunks_lem_example =
    pack_data_in_chunks_lem (λ xs. some (encode xs)) encode decode (λ xs. refl) round_trip 4
      data_of_three (omega arith)
