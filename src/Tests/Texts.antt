-- ===== src/Tests/Texts.antt =====
-- Examples for the screen, the strings and the directories.
use adelaideos.Common.{ℕ, ◌≡◌, ◌↔◌, true, List, [], ◌∷◌, All, arith, ◌==◌, if◌then◌else◌}
use adelaideos.Screen.{scroll, write_to_screen}
use adelaideos.Screen.Scroll.{scrolled, raised, scroll-scrolled}
use adelaideos.Screen.Bounds.{IsOnScreen, SameOutside, write_to_screen-IsOnScreen}
use adelaideos.Libc.{strcmp, is_zero}
use adelaideos.Libc.Compare.{IsChar, strcmp-equal}
use adelaideos.Filesystem.{Image, dir_count, lookup}
use adelaideos.Filesystem.Lookup.{IsFirst, lookup-IsFirst}
use adelaideos.Tests.States.{blank}

scroll-scrolled_example :
    ((i : ℕ) → (scroll blank).cells i ≡ scrolled blank.cells i)
    × ((i : ℕ) → (scroll blank).fg i ≡ raised blank.fg i)
    × ((i : ℕ) → (scroll blank).bg i ≡ raised blank.bg i)
    × ((scroll blank).xpos ≡ 78)
    × ((scroll blank).ypos ≡ 23)
scroll-scrolled_example = scroll-scrolled blank

write_to_screen-IsOnScreen_example :
    IsOnScreen (write_to_screen (65 ∷ 9 ∷ 10 ∷ 66 ∷ []) blank)
    × SameOutside blank (write_to_screen (65 ∷ 9 ∷ 10 ∷ 66 ∷ []) blank)
write_to_screen-IsOnScreen_example =
    write_to_screen-IsOnScreen (65 ∷ 9 ∷ 10 ∷ 66 ∷ []) blank
      (record { column = omega arith; line = omega arith })

abbrev ls_text : List ℕ
ls_text = 108 ∷ 115 ∷ []

ls_text-IsChar : All IsChar ls_text
ls_text-IsChar = ((omega arith, omega arith), ((omega arith, omega arith), tt))

strcmp-equal_example : (is_zero (strcmp ls_text ls_text) ≡ true) ↔ (ls_text ≡ ls_text)
strcmp-equal_example = strcmp-equal ls_text ls_text ls_text-IsChar ls_text-IsChar

-- A directory at offset 300 with one entry, `ls`.
abbrev image : Image
image a = if a == 300 then 1 else if a == 324 then 108 else if a == 325 then 115 else 0

lookup-IsFirst_example :
    IsFirst image 300 ls_text 2 0 (dir_count image 300) (lookup image 300 ls_text 2)
lookup-IsFirst_example =
    lookup-IsFirst image 300 ls_text 2 (λ a. ground arith) (omega arith) ls_text-IsChar
