-- ===== src/Loader/Main/Failures.antt =====
-- What `efi_main` does when the kernel cannot be opened.
use Prim.Native.String.{String}
use eta_os.Base.{
  ℕ, ◌≡◌, refl, ◌≢◌, ◌⊎◌, inl, inr, false, Option, none, some, [], arith, ◌==◌, Bool-cases,
}
use eta_os.Loader.Files.{open_directory, open_existing, load_file}
use eta_os.Loader.Firmware.{Firmware, ◌>>=◌, ◌>>◌, call, gets, not_null}
use eta_os.Loader.Elf.{ElfFormat}
use eta_os.Loader.Main.{Locals, read_header, efi_main}

-- Nothing is given, or NULL.
abbrev IsNull : {S : Type 0} → Option (ℕ × S) → Type 0
IsNull {S} o = (o ≡ none) ⊎ ((s' : S) × (o ≡ some (0, s')))

open_existing-closed :
    (fw : Firmware) (path : String) (directory : ℕ) (s : fw.State)
    → (fw.open_file s directory path).1.status ≢ 0
    → IsNull (open_existing fw directory path s)
open_existing-closed fw path directory s closed = elim (Bool-cases (directory == 0)) [
  | inl null ↦ inl (rw (null, not_null, ◌>>◌, ◌>>=◌) refl)
  | inr some_directory ↦
      let failed : ((fw.open_file s directory path).1.status == 0) ≡ false = ground arith in
      inr
        ((fw.open_file s directory path).0, rw (some_directory, failed, not_null, ◌>>◌, ◌>>=◌) refl)
]

-- A file that cannot be opened is NULL, where no null pointer is used before.
load_file-closed :
    (fw : Firmware) (directory : ℕ) (path : String) (image_handle : ℕ) (s : fw.State)
    → ((s : fw.State) (d : ℕ) → (fw.open_file s d path).1.status ≢ 0)
    → IsNull (load_file fw directory path image_handle s)
unfolding load_file
load_file-closed fw directory path image_handle s closed =
    let image = fw.handle_protocol s image_handle "LoadedImageProtocol" in
    let system =
      fw.handle_protocol image.0 (fw.device_handle (fw.memory image.0) image.1)
        "SimpleFileSystemProtocol" in
    let root = fw.open_volume system.0 system.1 in
    elim (Bool-cases (image.1 == 0)) [
      | inl null ↦ inl (rw (null, not_null, ◌>>◌, ◌>>=◌) refl)
      | inr loaded ↦ (elim (Bool-cases (directory == 0)) [
        | inl null ↦ (elim (Bool-cases (system.1 == 0)) [
          | inl no_system ↦
              inl (
                rw (loaded, null, no_system, open_directory, call, gets, not_null, ◌>>◌, ◌>>=◌)
                  refl)
          | inr found ↦
              rw (loaded, null, found, open_directory, call, gets, not_null, ◌>>◌, ◌>>=◌)
                (open_existing-closed fw path root.1 root.0 (closed root.0 root.1))
        ])
        | inr given ↦
            rw (loaded, given, open_directory, call, gets, not_null, ◌>>◌, ◌>>=◌)
              (open_existing-closed fw path directory system.0 (closed system.0 directory))
      ])
    ]

-- Whatever else the firmware does, if kernel.elf cannot be opened, efi_main uses a null
-- pointer.
pub efi_main-no_kernel :
    (elf : ElfFormat) (fw : Firmware) (locals : Locals) (image_handle : ℕ) (s : fw.State)
    → ((s : fw.State) (d : ℕ) → (fw.open_file s d "kernel.elf").1.status ≢ 0)
    → efi_main elf fw locals image_handle s ≡ none
unfolding efi_main read_header
efi_main-no_kernel elf fw locals image_handle s closed =
    let s₁ = fw.print (fw.initialize_lib s image_handle) "LESS GO \n\r" [] in
    elim (load_file-closed fw 0 "kernel.elf" image_handle s₁ closed) [
      | inl used ↦ rw (used, ◌>>=◌) refl
      | inr (s₂, null) ↦ rw (null, ◌>>=◌) refl
    ]
