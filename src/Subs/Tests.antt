-- ===== src/Subs/Tests.antt =====
-- Links and quotas at concrete inputs. The encoding is a text of the right length.
use obhod.Prelude.{
  ℕ, zero, suc, ◌+◌, ◌*◌, ◌/◌, ◌≡◌, refl, List, [], ◌∷◌, String, arith, ◌∙◌, text_key,
}
use Prim.Native.String.{len, [] as []ₛ, ◌∷◌ as ◌∷ₛ◌}
use Prim.Native.String.len
use obhod.Subs.{Quota, is_link, clean_links, clean_loop}
use obhod.Subs.Budget.{size_of}

abbrev items : List String
items = "vless://a" ∷ "" ∷ "vless://b" ∷ "vless://a" ∷ []

cleaned : clean_links items ≡ "vless://a" ∷ "vless://b" ∷ []
unfolding clean_links clean_loop is_link text_key
cleaned = refl

abbrev quotas : List Quota
quotas =
    record { up = 1; down = 10; total = 100; expire = 0 }
    ∷ record { up = 2; down = 20; total = 200; expire = 90 }
    ∷ record { up = 3; down = 30; total = 300; expire = 80 }
    ∷ []

-- A text of the given length.
abbrev dots : ℕ → String
dots zero = []ₛ
dots (suc n) = "." ∷ₛ dots n

len-dots : (n : ℕ) → len (dots n) ≡ n
len-dots zero = len.nil
len-dots (suc n) = len.cons "." (dots n) ∙ omega (arith, len-dots n)

abbrev encode : List String → String
encode links = dots ((size_of links + 2) / 3 * 4)
