-- ===== src/Loader/Files.antt =====
-- The files and the screen of gnu-efi/bootloader/main.c: `init_gop`, `load_file` and
-- `load_psf1_font`.
use Prim.Native.String.{String}
use eta_os.Base.{ℕ, ◌+◌, ◌*◌, ◌^◌, Bool, ◌&&◌, Option, none, some, [], leb, ◌==◌, if◌then◌else◌}
use eta_os.Screen.{Framebuffer}
use eta_os.Loader.Firmware.{Firmware, M, pure, ◌>>=◌, ◌>>◌, call, act, gets, not_null}
use eta_os.Memory.{Mem}

-- PSF1_FONT: the addresses of the font's header and of its glyphs.
pub record LoadedFont : Type 0 where
  pub psf1_header : ℕ
  pub glyph_buffer : ℕ

-- The fields of PSF1_HEADER at address `h`.
abbrev pub magic : Mem → ℕ → ℕ → ℕ
magic m h i = m (h + i)

abbrev pub mode : Mem → ℕ → ℕ
mode m h = m (h + 2)

abbrev pub charsize : Mem → ℕ → ℕ
charsize m h = m (h + 3)

-- A font of PSF1 starts with the two bytes of its magic number.
abbrev pub is_psf1 : Mem → ℕ → Bool
is_psf1 m h = (magic m h 0 == 0x36) && (magic m h 1 == 0x04)

abbrev pub glyph_buffer_size : Mem → ℕ → ℕ
glyph_buffer_size m h = if mode m h == 1 then charsize m h * 512 else charsize m h * 256

module _ (fw : Firmware) where
  -- NULL is `none`; a status is an error where its highest bit is set.
  unfoldable pub init_gop : M fw.State (Option Framebuffer)
  init_gop = do
    located ← call fw.locate_protocol
    let gop = located.protocol
    if leb (2 ^ 63) located.status
        then (do act (λ s. fw.print s "Unable to locate GOP.\n\r" []); pure none)
        else (do
          act (λ s. fw.print s "Located GOP.\n\r" [])
          pure (
              some (record {
                base_adress = gop.frame_buffer_base;
                buffer_size = gop.frame_buffer_size;
                width = gop.horizontal_resolution;
                height = gop.vertical_resolution;
                pixels_per_scanline = gop.pixels_per_scan_line;
              })))

  -- Without a directory, the root of the file system.
  abbrev pub open_directory : ℕ → ℕ → M fw.State ℕ
  open_directory directory file_system =
      if directory == 0
      then (do not_null file_system; call (λ s. fw.open_volume s file_system))
      else pure directory

  -- A file in a directory, 0 where it cannot be opened.
  abbrev pub open_existing : ℕ → String → M fw.State ℕ
  open_existing directory path = do
    not_null directory
    result ← call λ s. fw.open_file s directory path
    pure (if result.status == 0 then result.file else 0)

  -- 0 is NULL, for the directory and for the result; a use of NULL is `none`.
  unfoldable pub load_file : ℕ → String → ℕ → M fw.State ℕ
  load_file directory path image_handle = do
    loaded_image ← call λ s. fw.handle_protocol s image_handle "LoadedImageProtocol"
    not_null loaded_image
    m ← gets fw.memory
    file_system ←
        call λ s. fw.handle_protocol s (fw.device_handle m loaded_image) "SimpleFileSystemProtocol"
    opened ← open_directory directory file_system
    open_existing opened path

  -- The glyphs behind a header that was read.
  unfoldable pub load_glyphs : ℕ → ℕ → M fw.State LoadedFont
  load_glyphs font font_header = do
    m ← gets fw.memory
    act λ s. fw.set_position s font 4
    glyph_buffer ← call λ s. fw.allocate_pool s (glyph_buffer_size m font_header)
    act λ s. fw.read s font (glyph_buffer_size m font_header) glyph_buffer
    final_font ← call λ s. fw.allocate_pool s 16
    pure (record { psf1_header = font_header; glyph_buffer = glyph_buffer })

  -- The font of an open file.
  unfoldable pub read_psf1_font : ℕ → M fw.State (Option LoadedFont)
  unfolding load_glyphs
  read_psf1_font font = do
    font_header ← call λ s. fw.allocate_pool s 4
    act λ s. fw.read s font 4 font_header
    m ← gets fw.memory
    if is_psf1 m font_header
        then (do final_font ← load_glyphs font font_header; pure (some final_font))
        else pure none

  unfoldable pub load_psf1_font : ℕ → String → ℕ → M fw.State (Option LoadedFont)
  unfolding load_file read_psf1_font
  load_psf1_font directory path image_handle = do
    font ← load_file directory path image_handle
    if font == 0 then pure none else read_psf1_font font
