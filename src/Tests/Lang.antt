-- ===== src/Tests/Lang.antt =====
-- The expressions for file types.
use libag.Common.{◌≡◌, refl, List, [], ◌∷◌, ◌++◌, take, done, false, arith}
use libag.Cstr.{Str}
use libag.Lang.{
  opening, closing, append, grow_regex, add_extension, add_extensions, make_lang_regex,
  ext_capacity, add_language, combine_file_extensions,
}
use libag.Lang.Regex.{alternatives, make_lang_regex-alternatives}
use libag.Lang.Combine.{joined_exts, combine_file_extensions-take}

program : Unit {0}
unfolding append grow_regex add_extension add_extensions make_lang_regex add_language
    combine_file_extensions
program = tt

-- "c" and "h"
abbrev exts : List Str
exts = (b'c' ∷ []) ∷ ((b'h' ∷ []) ∷ [])

c_regex :
    make_lang_regex exts
    ≡ done (0x5c ∷ (b'.' ∷ (b'(' ∷ (b'c' ∷ (b'|' ∷ (b'h' ∷ (b')' ∷ (b'$' ∷ []))))))))
unfolding program
c_regex = refl

make_lang_regex-alternatives_example :
    make_lang_regex exts ≡ done (opening ++ (alternatives false exts ++ closing))
make_lang_regex-alternatives_example = make_lang_regex-alternatives exts

combine_file_extensions-take_example :
    combine_file_extensions (exts ∷ (exts ∷ [])) []
    ≡ done (take ext_capacity (joined_exts (exts ∷ (exts ∷ []))))
combine_file_extensions-take_example =
    combine_file_extensions-take (exts ∷ (exts ∷ []))
      ((λ e. ground arith), ((λ e. ground arith), tt))
