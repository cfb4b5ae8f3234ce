-- ===== src/Abi/Target.antt =====
-- crates/rustc_abi_cxx/src/target.rs: the parameters of a target that feed layout and mangling.
use Prim.Native.Char.{code}
use Prim.Native.String.{String}
use rustcc.Prelude.{ℕ, List, [], ◌∷◌, Bool, true, false}

-- The bytes of an ASCII literal.
abbrev pub codes : String → List ℕ
codes String.[] = []
codes (String.◌∷◌ c s) = code c ∷ codes s

pub data LongDoubleKind : Type 0 where
  f64 f80 f128 : LongDoubleKind

pub data AbiFlavor : Type 0 where
  itanium msvc : AbiFlavor

pub record Target : Type 0 where
  pub triple : String
  pub pointer_width_bits : ℕ
  pub long_double : LongDoubleKind
  pub wchar_t_signed : Bool
  pub wchar_t_width : ℕ
  pub aarch64_darwin_quirks : Bool
  pub abi_flavor : AbiFlavor

unfoldable pub x86_64_unknown_linux_gnu : Target
x86_64_unknown_linux_gnu = record {
  triple = "x86_64-unknown-linux-gnu";
  pointer_width_bits = 64;
  long_double = LongDoubleKind.f80;
  wchar_t_signed = true;
  wchar_t_width = 32;
  aarch64_darwin_quirks = false;
  abi_flavor = AbiFlavor.itanium;
}

unfoldable pub x86_64_apple_darwin : Target
x86_64_apple_darwin = record {
  triple = "x86_64-apple-darwin";
  pointer_width_bits = 64;
  long_double = LongDoubleKind.f64;
  wchar_t_signed = true;
  wchar_t_width = 32;
  aarch64_darwin_quirks = false;
  abi_flavor = AbiFlavor.itanium;
}

unfoldable pub aarch64_unknown_linux_gnu : Target
aarch64_unknown_linux_gnu = record {
  triple = "aarch64-unknown-linux-gnu";
  pointer_width_bits = 64;
  long_double = LongDoubleKind.f128;
  wchar_t_signed = false;
  wchar_t_width = 32;
  aarch64_darwin_quirks = false;
  abi_flavor = AbiFlavor.itanium;
}

unfoldable pub aarch64_apple_darwin : Target
aarch64_apple_darwin = record {
  triple = "aarch64-apple-darwin";
  pointer_width_bits = 64;
  long_double = LongDoubleKind.f64;
  wchar_t_signed = false;
  wchar_t_width = 32;
  aarch64_darwin_quirks = true;
  abi_flavor = AbiFlavor.itanium;
}

unfoldable pub x86_64_pc_windows_msvc : Target
x86_64_pc_windows_msvc = record {
  triple = "x86_64-pc-windows-msvc";
  pointer_width_bits = 64;
  long_double = LongDoubleKind.f64;
  wchar_t_signed = false;
  wchar_t_width = 16;
  aarch64_darwin_quirks = false;
  abi_flavor = AbiFlavor.msvc;
}

unfoldable pub aarch64_pc_windows_msvc : Target
aarch64_pc_windows_msvc = record {
  triple = "aarch64-pc-windows-msvc";
  pointer_width_bits = 64;
  long_double = LongDoubleKind.f64;
  wchar_t_signed = false;
  wchar_t_width = 16;
  aarch64_darwin_quirks = false;
  abi_flavor = AbiFlavor.msvc;
}

unfoldable pub x86_64_pc_windows_gnu : Target
x86_64_pc_windows_gnu = record {
  triple = "x86_64-pc-windows-gnu";
  pointer_width_bits = 64;
  long_double = LongDoubleKind.f64;
  wchar_t_signed = false;
  wchar_t_width = 16;
  aarch64_darwin_quirks = false;
  abi_flavor = AbiFlavor.itanium;
}
