-- ===== src/Html/Tests.antt =====
-- ap_website/html_helper.c: concrete texts and buffers.
use pico_common.Common.{ℕ, ◌≡◌, refl, List, [], ◌∷◌, ◌++◌, some, arith, overwrite, replicate}
use pico_common.Http.Text.{codes, c_string}
use pico_common.Html.{replace_newlines_with_html}
use pico_common.Html.Replace.{replace_newlines_with_html_lem}

abbrev two_lines : List ℕ
two_lines = codes "a\nb"

replace_newlines_with_html_lem_example :
    replace_newlines_with_html (replicate 9 7) (two_lines ++ 0 ∷ [])
    ≡ some (overwrite (replicate 9 7) 0 (codes "a<br>b" ++ 0 ∷ []), 6)
unfolding c_string
replace_newlines_with_html_lem_example =
    replace_newlines_with_html_lem (replicate 9 7) (two_lines ++ 0 ∷ []) two_lines refl
      (omega arith)
