-- ===== src/Tests/Buffers.antt =====
-- Inputs for the theorems about src/buffer.c, src/color.c and the replacements of src/str.c.
use muddled.Base.{true, [], ◌∷◌, ◌++◌, inl, some, ◌≡◌, refl, arith, codes, toupper}
use muddled.Base.Int.{pos}
use muddled.Buffer.{buffer_safe, Buffer, buf_add_len}
use muddled.Buffer.Laws.{IsBuffer, add_all, concat, add_all_lem}
use muddled.Color.{ColorT, letter_color}
use muddled.Str.Compare.{str_cmp}
use muddled.Str.Replace.{spent, strstr, str_replace_all, capitalize}
use muddled.Str.Replace.Laws.{str_replace_all_endless}

abbrev small : Buffer
small = record { state = buffer_safe; size = 16; string = codes "You see " }

IsBuffer-small : IsBuffer small
IsBuffer-small = (inl refl, omega arith)

add_all_lem_example :
    (b' : Buffer) × (add_all small (codes "a fountain" ∷ codes " and a tree." ∷ []) ≡ some b')
    × IsBuffer b'
    × (b'.state ≡ buffer_safe)
    × (b'.string ≡ codes "You see " ++ concat (codes "a fountain" ∷ codes " and a tree." ∷ []))
add_all_lem_example =
    add_all_lem small (codes "a fountain" ∷ codes " and a tree." ∷ []) IsBuffer-small refl
      (omega arith)

grown :
    buf_add_len small (codes "a fountain") 10
    ≡ some (record { state = buffer_safe; size = 32; string = codes "You see a fountain" }, true)
unfolding buf_add_len
grown = refl

abbrev plain : ColorT
plain = record { attr = pos 0; value = 0 }

red : letter_color (toupper b'r') ≡ some 31
unfolding letter_color
red = refl

found_cat : strstr (codes "a cat, a cat") (codes "cat") ≡ some 2
unfolding strstr
found_cat = refl

longer : str_cmp (some (b'a' ∷ [])) (some (b'a' ∷ [] ++ b'a' ∷ [])) ≡ true
unfolding str_cmp
longer = refl

str_replace_all_endless_example :
    str_replace_all 100 (b'a' ∷ [] ++ codes "bc") (b'a' ∷ []) (some (b'a' ∷ [] ++ b'a' ∷ []))
    ≡ spent
str_replace_all_endless_example =
    str_replace_all_endless b'a' [] (b'a' ∷ []) (codes "bc") (omega arith) (omega arith) longer 100

capital : capitalize (some (codes "hELLO")) ≡ some (codes "Hello")
unfolding capitalize
capital = refl
