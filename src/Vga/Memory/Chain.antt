-- ===== src/Vga/Memory/Chain.antt =====
-- Chain-4 mode of device.c, in which the memory window is linear.
use citrix_vgpu.Prelude.{refl, ℕ, ◌≡◌, ◌<◌, ◌^◌, ◌%◌, ◌/◌, some, arith, update, update_self, true}
use citrix_vgpu.Vga.{Vga, reg, bits}
use citrix_vgpu.Vga.Memory.{
  note_planes, Vram, vga_offset, device_vga_memory_readb, read_decoded, copy_from_vram,
  copy_to_vram, demu_vram_set_page_dirty, write_plane, write_decoded, device_vga_memory_writeb,
}

-- In chain-4 mode, a byte written to an address of the window whose plane is enabled, at an offset
-- inside the device's 4 MB, is what a read of that address then gives. Of the video memory only that
-- byte has changed, and of the dirty map only its page's bit, which is set.
pub device_vga_memory_readb-device_vga_memory_writeb :
    (addr val a : ℕ) (v : Vga) (m : Vram)
    → vga_offset (reg v.gr 6) v.bank_offset addr ≡ some a
    → a < 0x400000
    → bits (reg v.sr 4) 0x08 ≡ true
    → bits (reg v.sr 2) (2 ^ (a % 4)) ≡ true
    → (v' : Vga) × (m' : Vram) × (device_vga_memory_writeb addr val v m ≡ some (v', m'))
      × (device_vga_memory_readb m' addr v' ≡ some (val, v'))
      × (m'.byte ≡ update m.byte a val)
      × (m'.page_dirty ≡ update m.page_dirty (a / 2 ^ 12) true)
unfolding device_vga_memory_writeb write_decoded write_plane copy_to_vram demu_vram_set_page_dirty
    device_vga_memory_readb read_decoded copy_from_vram
device_vga_memory_readb-device_vga_memory_writeb addr val a v m q b c p = (
  note_planes (2 ^ (a % 4)) v,
  record { byte = update m.byte a val; page_dirty = update m.page_dirty (a / 2 ^ 12) true },
  ground arith,
  ground (arith, update_self m.byte a val),
  refl,
  refl,
)
