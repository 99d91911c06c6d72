-- ===== src/Host.antt =====
-- cli/print.go: what the header of a program says of its host.
use gobox.Base.{
  ℕ, ◌≡◌, refl, Bool, ◌&&◌, Option, none, some, List, [], ◌∷◌, ◌++◌, All, ◌==◌, if◌then◌else◌,
}
use gobox.Base.Text.{Text, codes, is_empty, split_on, trim_space}
use gobox.Base.Errors.{Error, Result, ok, err, sentinel, wrap}

-- What is read of the system: /etc/os-release, or that it is missing, the hostname, and what `uname -r`
-- prints.
pub record System : Type 0 where
  pub os_release : Result Text
  pub is_not_exist : Error → Bool
  pub hostname : Result Text
  pub uname : Result Text
  pub goos : Text
  pub goarch : Text
  pub num_cpu : ℕ
  pub decimal : ℕ → Text

-- What follows a prefix.
unfoldable pub after_prefix : Text → Text → Option Text
after_prefix [] s = some s
after_prefix (p ∷ ps) [] = none
after_prefix (p ∷ ps) (c ∷ s) = let rest = after_prefix ps s in if p == c then rest else none

-- strings.Trim by the quotation mark
unfoldable pub trim_start : Text → Text
trim_start [] = []
trim_start (c ∷ s) = let rest = trim_start s in if c == 34 then rest else c ∷ s

unfoldable pub trim_end : Text → Text
trim_end [] = []
trim_end (c ∷ s) = let rest = trim_end s in if is_empty rest && c == 34 then [] else c ∷ rest

abbrev pub distribution_not_found : Error
distribution_not_found = sentinel "ErrDistributionNotFound"

abbrev pub named : Text → Result Text
named name = if is_empty name then err distribution_not_found else ok name

-- The loop of `getLinuxDistribution` over the lines that are left.
unfoldable pub name_line : List Text → Result Text
unfolding after_prefix trim_start trim_end
name_line [] = err distribution_not_found
name_line (line ∷ lines) =
    let rest = name_line lines in
    elim (after_prefix (codes "NAME=") line) [
      | some value ↦ named (trim_start (trim_end value))
      | none ↦ rest
    ]

-- `getLinuxDistribution`
unfoldable pub get_linux_distribution : System → Result Text
unfolding name_line split_on
get_linux_distribution s = elim s.os_release [
  | ok data_ ↦ name_line (split_on 10 data_)
  | err e ↦
      if s.is_not_exist e
      then err (sentinel "ErrOSReleaseNotFound")
      else err (wrap "ErrReadOSReleaseFailed" e)
]

-- `getHostname`
unfoldable pub get_hostname : System → Result Text
get_hostname s = elim s.hostname [ ok host ↦ ok host | err e ↦ err (wrap "ErrHostnameFailed" e) ]

abbrev versioned : Text → Result Text
versioned version = if is_empty version then err (sentinel "ErrKernelVersionFailed") else ok version

-- `getKernelVersion`
unfoldable pub get_kernel_version : System → Result Text
unfolding trim_space
get_kernel_version s = elim s.uname [
  | err e ↦ err (wrap "ErrKernelVersionFailed" e)
  | ok out ↦ versioned (trim_space out)
]

abbrev line_if : Text → Result Text → List Text
line_if label (ok value) = (label ++ value) ∷ []
line_if label (err e) = []

-- The lines of `PrintHeader` between its separators, without their colors.
unfoldable pub header_lines : System → Text → List Text
unfolding get_linux_distribution get_hostname get_kernel_version
header_lines s content =
    (content
      ∷ (codes "S.O.: " ++ s.goos)
      ∷ (codes "Architecture: " ++ s.goarch)
      ∷ (codes "Available CPUs: " ++ s.decimal s.num_cpu)
      ∷ [])
    ++ line_if (codes "S.O Dist.: ") (get_linux_distribution s)
    ++ line_if (codes "Hostname: ") (get_hostname s)
    ++ line_if (codes "Kernel version: ") (get_kernel_version s)

-- The lines before the first that begins with NAME= do not count: the distribution is what that line
-- names, without quotation marks, or not found if it names nothing.
first_name :
    (before : List Text) (line value : Text) (later : List Text)
    → All (λ l. after_prefix (codes "NAME=") l ≡ none) before
    → after_prefix (codes "NAME=") line ≡ some value
    → name_line (before ++ line ∷ later) ≡ named (trim_start (trim_end value))
unfolding name_line
first_name [] line value later h is = rw (name_line, is) refl
first_name (l ∷ before) line value later (no_name, h) is =
    rw (name_line, no_name) (first_name before line value later h is)

ubuntu :
    name_line (codes "ID=ubuntu" ∷ codes "NAME=\"Ubuntu\"" ∷ codes "NAME=x" ∷ [])
    ≡ ok (codes "Ubuntu")
unfolding name_line
ubuntu = refl
