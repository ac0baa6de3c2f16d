-- ===== src/Library.antt =====
-- src/os/DynLibraryHandler.cpp, POSIX branch: a handle of dlopen, 0 for NULL, and the references that dlopen
-- has given and dlclose has not taken back, by handle.
use gicame.Prelude.{ℕ, ◌==◌, refl, Bool-cases, inl, inr, if◌then◌else◌}
use gicame.Openssl.{Heap, Act, put, pure, throw, allocate, free, ◌>>=◌, follow, scoped}
use gicame.Openssl.Freed.{Leaves, unwind-Leaves}

-- `load`, by what dlopen returns.
unfoldable pub load : ℕ → Act ℕ
load handle = allocate handle >>= λ h. if h == 0 then throw else pure h

-- `unload`, of which the destructor consists; dlclose is not called for NULL.
unfoldable pub unload : ℕ → Act (Unit {0})
unload native_handle = free native_handle

-- `getSymbolAddress`, by what dlsym returns.
unfoldable pub get_symbol_address : ℕ → ℕ → Act ℕ
get_symbol_address native_handle address = if native_handle == 0 then throw else pure address

-- A library that is loaded, asked for a symbol and destroyed is closed as often as it was opened, also
-- where it could not be loaded.
pub used_library_is_closed :
    (handle address : ℕ) (g : Heap)
    → Leaves g (follow (load handle g) (λ h. scoped (get_symbol_address h address) (unload h)))
unfolding load unload get_symbol_address
used_library_is_closed handle address g = elim (Bool-cases (handle == 0)) [
  | inl e ↦ rw e refl
  | inr e ↦
      rw e (unwind-Leaves handle g (get_symbol_address handle address (put handle g)) e (rw e refl))
]
