-- ===== src/Tests/Images.antt =====
-- Examples for printing, and for an image with one program in it.
use adelaideos.Common.{
  ℕ, ◌+◌, ◌≤◌, ◌^◌, ◌≡◌, refl, inl, inr, codes, true, List, [], ◌∷◌, ◌++◌, All, length, take,
  replicate, some, arith, done, false, length-replicate, ◌<◌,
}
use adelaideos.Libc.{Output, print_num, strlen, strcmp, char_diff}
use adelaideos.Libc.Digits.{
  add_all, numeral, digits_from, exponent, read_number, print_num-read_number,
}
use adelaideos.Libc.Format.{Varargs, vsnprintf}
use adelaideos.Libc.Render.{
  Piece, plain, field, decimal, string, IsPiece, write_format, render, align, field_text,
  decimal_text,
}
use adelaideos.Libc.Printed.{vsnprintf-render}
use adelaideos.Screen.{Screen, write_to_screen}
use adelaideos.Screen.Bounds.{IsOnScreen, SameOutside}
use adelaideos.Console.{kprintf}
use adelaideos.Console.Printed.{kprintf-render}
use adelaideos.Tests.States.{blank}
use adelaideos.Filesystem.{get_directory_entry}
use adelaideos.Fstool.{
  BuildOutput, HostStat, Node, dir, file, Listing, end, item, build, root_entry, image_of,
  kept_type, ignore_file, directory_bytes, entries_bytes, entry_bytes, u32_bytes, new_entry,
  strncpy, scan_dir,
}
use mathlib.Core.List.{flatten}
use adelaideos.Fstool.Readable.{CanRead, CanReadAll}
use adelaideos.Fstool.Blocks.{node_bytes}
use adelaideos.Fstool.Found.{IsHostStat}
use adelaideos.Fstool.Walk.{path_text, Leads}
use adelaideos.Fstool.Built.{Describes, build-get_directory_entry}

abbrev blank_output : Output
blank_output = record { str = replicate 8 0; size = 8; at = 0 }

print_num-read_number_example :
    (print_num blank_output 1024 10 ≡ add_all blank_output (numeral 1024 10))
    × (read_number 10 0 (numeral 1024 10) ≡ 1024)
print_num-read_number_example =
    print_num-read_number blank_output 1024 10 (omega arith) (omega arith) (omega arith)

-- The format "pid %3d %s".
abbrev pieces : List Piece
pieces =
    plain b'p'
    ∷ plain b'i'
    ∷ plain b'd'
    ∷ plain 32
    ∷ field true (b'3' ∷ []) decimal
    ∷ plain 32
    ∷ field true [] string
    ∷ []

abbrev arguments : Varargs
arguments = record { word = λ n. 7; text = λ a. b's' ∷ b'h' ∷ [] }

pieces-IsPiece : All IsPiece pieces
pieces-IsPiece = ground arith

pieces-short : length (render arguments pieces 0) < 4096
unfolding numeral digits_from exponent render align field_text decimal_text strlen
pieces-short = omega arith

vsnprintf-render_example :
    (array : List ℕ) × (vsnprintf arguments (replicate 8 0) 8 (write_format pieces)
      ≡ done (array, length (render arguments pieces 0)))
    × (length array ≡ 8)
    × (take (length (take 7 (render arguments pieces 0)) + 1) array
        ≡ take 7 (render arguments pieces 0) ++ 0 ∷ [])
vsnprintf-render_example =
    vsnprintf-render arguments (replicate 8 0) 8 pieces (λ i. omega arith) pieces-IsPiece refl
      (omega arith) (omega (arith, pieces-short))

kprintf-render_example :
    (s' : Screen) × (kprintf false (replicate 4096 0) arguments (write_format pieces) blank
      ≡ done s')
    × (s' ≡ write_to_screen (render arguments pieces 0) blank)
    × IsOnScreen s'
    × SameOutside blank s'
kprintf-render_example =
    kprintf-render (replicate 4096 0) arguments pieces blank (λ i. omega arith) pieces-IsPiece
      (length-replicate {A = ℕ} 4096 0) pieces-short
      (record { column = omega arith; line = omega arith })

-- A directory `b` with a file `s` of three bytes, which are read in two pieces.
abbrev host_file : HostStat
host_file = record { name = b's' ∷ []; st_size = 3; st_mode = 0x81ed; st_mtime = 5 }

abbrev host_dir : HostStat
host_dir = record { name = b'b' ∷ []; st_size = 0; st_mode = 0x41ed; st_mtime = 4 }

abbrev program : Node
program = file ((1 ∷ 2 ∷ []) ∷ (3 ∷ []) ∷ [])

abbrev tree : Listing
tree = item host_dir (dir (item host_file program end)) end

file-IsHostStat : IsHostStat host_file
file-IsHostStat = omega arith

dir-IsHostStat : IsHostStat host_dir
dir-IsHostStat = omega arith

tree-fits : 276 + length (node_bytes 0 276 (dir tree)) ≤ 2 ^ 31
unfolding node_bytes kept_type ignore_file strcmp char_diff directory_bytes entries_bytes
    entry_bytes u32_bytes new_entry strncpy scan_dir flatten
tree-fits = omega arith

tree-Leads : Leads tree (b'b' ∷ []) ((b's' ∷ []) ∷ []) host_file program
unfolding kept_type ignore_file strcmp char_diff
tree-Leads = (
  host_dir,
  item host_file program end,
  (dir-IsHostStat, tt),
  refl,
  inl (refl, refl, refl),
  ((file-IsHostStat, tt), refl, inl (refl, refl, refl)),
)

abbrev host_path : List ℕ
host_path = codes "files"

tree-CanReadAll : CanReadAll 4096 host_path tree
unfolding CanReadAll CanRead
tree-CanReadAll = (
  inr (
    omega arith,
    omega arith,
    omega arith,
    (inr (omega arith, omega arith, omega arith, tt), tt),
  ),
  tt,
)

build-get_directory_entry_example :
    (o : BuildOutput) × (build 4096 0 host_path (root_entry 0 0 (replicate 251 0)) tree ≡ done o)
    × (e : ℕ) × (get_directory_entry (image_of o) (path_text ((b'b' ∷ []) ∷ (b's' ∷ []) ∷ []))
        ≡ some e)
    × Describes (image_of o) e host_file program
build-get_directory_entry_example =
    build-get_directory_entry 4096 0 0 0 host_path (replicate 251 0) tree (b'b' ∷ [])
      ((b's' ∷ []) ∷ []) host_file program tree-CanReadAll (omega arith) (omega arith) (omega arith)
      refl tree-fits tree-Leads
