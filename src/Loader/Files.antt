-- ===== src/Loader/Files.antt =====
-- boot/uefi/gnu-efi/bootloader/uefi_main.c: files, the font and the frame buffer.
use bbn_os.Base.{ℕ, ◌+◌, ◌*◌, Bool, ◌&&◌, Option, none, some, List, ◌==◌, if◌then◌else◌}
use bbn_os.Console.{FbInfo}
use bbn_os.Loader.{Firmware, Run, ◌>>=◌, ◌>>◌, return, call, perform, follow, pool, peek}

-- `Psf1Font` of the loader: the addresses of the header and of the glyphs.
pub record LoadedFont : Type 0 where
  pub header : ℕ
  pub glyph_buffer : ℕ

module _ {W : Type 0} (fw : Firmware W) where
  -- `InitializeGOP`; `none` is NULL.
  unfoldable pub initialize_gop : W → Option FbInfo × W
  initialize_gop w =
      let (found, w') = fw.locate_gop w in
      elim found [
        | none ↦ (none, w')
        | some mode ↦ (
          some (record {
            base_address = mode.fb_base;
            buffer_size = mode.fb_size;
            width = mode.horizontal;
            height = mode.vertical;
            pixels_per_scanline = mode.pixels_per_scanline;
          }),
          w',
        )
      ]

  -- The directory of a file: the root of the device, where none is given.
  unfoldable pub directory_of : Option ℕ → (device : ℕ) → W → ℕ × W
  directory_of none device w = fw.open_root device w
  directory_of (some directory) device w = (directory, w)

  -- `LoadFile`; the file `none` is NULL. The file system that it asks for is not used.
  unfoldable pub load_file : Option ℕ → (path : List ℕ) → Run W (Option ℕ)
  load_file directory path = do
    image ← call fw.image_device
    device ← follow image
    perform (fw.file_system device)
    root ← call (directory_of directory device)
    call (fw.open_file root path)

  -- `PSF1_MAGIC0` and `PSF1_MAGIC1`
  abbrev pub is_psf1 : (first second : ℕ) → Bool
  is_psf1 first second = first == 0x36 && second == 0x04

  -- 512 glyphs in mode 1, else 256.
  abbrev pub glyph_bytes : (mode charsize : ℕ) → ℕ
  glyph_bytes mode charsize = if mode == 1 then charsize * 512 else charsize * 256

  -- `LoadPSF1Font` from the verified header on.
  unfoldable pub load_glyphs : (font header : ℕ) → Run W (Option LoadedFont)
  load_glyphs font header = do
    mode ← peek fw (header + 2)
    charsize ← peek fw (header + 3)
    perform (fw.set_position font 4)
    glyphs ← pool fw (glyph_bytes mode charsize)
    perform (fw.read font (glyph_bytes mode charsize) glyphs)
    finished ← pool fw 16
    return (some (record { header = header; glyph_buffer = glyphs }))

  -- The header is read and checked.
  unfoldable pub load_header : (font : ℕ) → Run W (Option LoadedFont)
  load_header font = do
    header ← pool fw 4
    perform (fw.read font 4 header)
    first ← peek fw header
    second ← peek fw (header + 1)
    (if is_psf1 first second then load_glyphs font header else return none)

  unfoldable pub load_psf1_font : Option ℕ → (path : List ℕ) → Run W (Option LoadedFont)
  load_psf1_font directory path = do
    font ← load_file directory path
    elim font [ none ↦ return none | some file ↦ load_header file ]
