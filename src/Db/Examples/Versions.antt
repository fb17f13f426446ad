-- ===== src/Db/Examples/Versions.antt =====
-- `CompareBinaryVersion` of internal/db/db.go at concrete inputs.
use pincher_mcp.Prelude.{◌≡◌, refl, none, some, codes, String, str_eq, text_less}
use pincher_mcp.Db.Version.{
  pos, negsuc, BinaryVersion, parse_binary_version, before, after, compare_binary_version,
}
use pincher_mcp.Db.Version.Order.{compare_binary_version_trans}

abbrev read : String → BinaryVersion
unfolding parse_binary_version
read s = elim (parse_binary_version (codes s)) [
  | some v ↦ v
  | none ↦ record { major = pos 0; minor = pos 0; patch = pos 0; commits = pos 0 }
]

a_build :
    parse_binary_version (codes "v0.58.0-44-g91e9c0f")
    ≡ some (record { major = pos 0; minor = pos 58; patch = pos 0; commits = pos 44 })
unfolding parse_binary_version
a_build = refl

negative_commits :
    parse_binary_version (codes "0.5.0--3")
    ≡ some (record { major = pos 0; minor = pos 5; patch = pos 0; commits = negsuc 2 })
unfolding parse_binary_version
negative_commits = refl

not_read :
    (parse_binary_version (codes "0.5") ≡ none) × (parse_binary_version (codes "1.2.3.4") ≡ none)
unfolding parse_binary_version
not_read = (refl, refl)

dev_is_first : compare_binary_version (codes "dev") (codes "0.1.0") ≡ before
unfolding compare_binary_version str_eq
dev_is_first = refl

-- A text that is not a version may count as later than any release.
nightly_is_last : compare_binary_version (codes "nightly") (codes "0.58.0") ≡ after
unfolding compare_binary_version str_eq text_less
nightly_is_last = refl

-- With a text that is not a version the order has a cycle.
cycle :
    (compare_binary_version (codes "0.9.0") (codes "0.10.0") ≡ before)
    × (compare_binary_version (codes "0.10.0") (codes "0.5") ≡ before)
    × (compare_binary_version (codes "0.5") (codes "0.9.0") ≡ before)
unfolding compare_binary_version str_eq text_less
cycle = (refl, refl, refl)

compare_binary_version_trans_example :
    compare_binary_version (codes "0.9.0") (codes "0.10.0-4-gabc") ≡ before
unfolding parse_binary_version compare_binary_version str_eq
compare_binary_version_trans_example =
    compare_binary_version_trans (codes "0.9.0") (codes "0.10.0") (codes "0.10.0-4-gabc")
      (read "0.9.0") (read "0.10.0") (read "0.10.0-4-gabc") refl refl refl refl refl
