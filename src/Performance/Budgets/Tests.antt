-- ===== src/Performance/Budgets/Tests.antt =====
-- The budget checks at concrete inputs.
use go_performance_starter.Prelude.{
  ℕ, ◌-◌, ◌/◌, ◌^◌, ◌≡◌, refl, String, Option, none, some, List, [], ◌∷◌, arith, length,
  if◌then◌else◌,
}
use text.Mathlib.Text.{◌==◌ as str_eq}
use go_performance_starter.Performance.Budgets.{
  scaled, plain, format_bytes, violation, size, check_binary_size, unreadable,
}
use go_performance_starter.Performance.Budgets.Units.{IsReadable, format_bytes-IsReadable}

format_bytes_test :
    (format_bytes 1023 ≡ some (plain 1023))
    × (format_bytes 1536 ≡ some (scaled 1536 1024 b'K'))
    × (format_bytes 20971520 ≡ some (scaled 20971520 1048576 b'M'))
    × (format_bytes (2 ^ 63 - 1) ≡ some (scaled (2 ^ 63 - 1) (2 ^ 60) b'E'))
unfolding format_bytes
format_bytes_test = (refl, refl, refl, refl)

check_binary_size_test :
    (check_binary_size "api" (some 20971520) ≡ none)
    × (check_binary_size "api" (some 20971521)
        ≡ some (
            violation "Binary Size"
              (size (some (scaled 20971520 1048576 b'M')))
              (size (some (scaled 20971521 1048576 b'M')))))
    × (check_binary_size "api" none ≡ some (unreadable "api"))
unfolding check_binary_size format_bytes
check_binary_size_test = (refl, refl, refl)

format_bytes-IsReadable_example : IsReadable 1536 (format_bytes 1536)
format_bytes-IsReadable_example = format_bytes-IsReadable 1536 (omega arith)

-- Two files on the disk, and a writer that halves what it is given.
abbrev disk : String → Option (List ℕ)
disk p =
    if str_eq p "js"
    then some (1 ∷ 2 ∷ 3 ∷ 4 ∷ [])
    else if str_eq p "css"
    then some (5 ∷ 6 ∷ [])
    else none

abbrev packed : List ℕ → Option ℕ
packed bytes = some (length bytes / 2)
