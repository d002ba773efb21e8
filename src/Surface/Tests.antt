-- ===== src/Surface/Tests.antt =====
-- The display at concrete states.
use citrix_vgpu.Prelude.{not, ◌≡◌, ◌&&◌, ◌==◌, false, some, none, refl, true, [], ◌∷◌}
use citrix_vgpu.Vga.{Vga}
use citrix_vgpu.Vga.Memory.{Vram}
use citrix_vgpu.Vga.Memory.Dirty.{demu_sync_vram_dirty_map, demu_clear_vram_dirty_map}
use citrix_vgpu.Surface.{
  Surface, get_depth_index, get_offsets, get_bpp, get_resolution, update_basic_params,
  surface_resize, surface_update,
}
use citrix_vgpu.Surface.Palette.{
  colour16, update_entries, vgpu_update_palette16, rgb_to_pixel, rgb_to_pixel8, c6_to_8,
}
use citrix_vgpu.Surface.Draw.{
  surface_draw_graphic, draw_frame, disp_width, resize_graphic, choose_line, report, update_modes,
  frame_of, surface_draw_graphic-reported, shown_in_place,
}
use citrix_vgpu.Surface.Lines.{
  Frame, Cursor, line, rectangle, draw_lines, line_addr, line_update, advance,
}
use citrix_vgpu.Surface.Lines.Exact.{is_drawn, is_updated, is_reported}

-- 640 x 480 with 32 bits a pixel, and a change on one page
abbrev one_change : Vram
one_change = record { byte = λ a. 0; page_dirty = λ p. p == 7 }

abbrev frame : Frame
frame = record {
  cr17 = 0xe3;
  line_offset = 2560;
  line_compare = 1023;
  bwidth = 2560;
  multi_scan = 0;
  full_update = false;
  in_place = false;
}

abbrev top : Cursor
top = record { y1 = 0; addr1 = 0; multi_run = 0; y_start = none }

-- The registers when all are 0: one line of 8 pixels in four planes.
abbrev unset : Vga
unset = record {
  lfb_addr = 0;
  lfb_size = 0;
  latch = 0;
  sr_index = 0;
  sr = [];
  gr_index = 0;
  gr = [];
  ar_index = 0;
  ar = [];
  ar_flip_flop = 0;
  cr_index = 0;
  cr = [];
  msr = 0;
  fcr = 0;
  st00 = 0;
  st01 = 0;
  dac_state = 0;
  dac_sub_index = 0;
  dac_read_index = 0;
  dac_write_index = 0;
  dac_cache = [];
  dac_8bit = 0;
  palette = [];
  bank_offset = 0;
  vbe_index = 0;
  vbe_regs = [];
  vbe_start_addr = 0;
  vbe_line_offset = 0;
  vbe_bank_mask = 0;
  plane_updated = 0;
  part1_dirty = true;
  part2_dirty = true;
}

abbrev dark : Surface
dark = record {
  offset = 0x400000;
  graphic_mode = none;
  shift_control = 0;
  double_scan = 0;
  line_offset = 0;
  line_compare = 0;
  start_addr = 0;
  bits_per_pixel = 0;
  bytes_per_pixel = 0;
  linesize = 0;
  last_line_offset = 0;
  last_width = 8;
  last_height = 1;
  last_scr_width = 8;
  last_scr_height = 1;
  last_depth = 0;
  last_palette = λ k. 0;
  shared_offset = 0;
  shared_linesize = 0;
  shared_width = 8;
  shared_height = 1;
  shared_depth = 0;
  shared_update = 0;
}

abbrev shown : Surface
shown = record dark { shared_update = 1 }

abbrev clean : Vram
clean = record one_change { page_dirty = λ p. false }

shown_done :
    surface_draw_graphic none unset true dark one_change
    ≡ some (shown, clean, line 0 0 true ∷ rectangle 0 1 ∷ [])
unfolding surface_draw_graphic draw_frame disp_width resize_graphic choose_line report update_modes
    frame_of get_offsets get_bpp get_resolution update_basic_params surface_update draw_lines
    line_addr line_update advance vgpu_update_palette16 update_entries colour16 rgb_to_pixel
    rgb_to_pixel8 c6_to_8 get_depth_index demu_sync_vram_dirty_map demu_clear_vram_dirty_map
    surface_resize
shown_done = refl

surface_draw_graphic-reported_example :
    (is_reported 0 (line 0 0 true ∷ rectangle 0 1 ∷ [])
      ≡ is_updated 0 (line 0 0 true ∷ rectangle 0 1 ∷ []))
    × (is_drawn 0 (line 0 0 true ∷ rectangle 0 1 ∷ [])
        ≡ (not (shown_in_place shown) && is_updated 0 (line 0 0 true ∷ rectangle 0 1 ∷ [])))
    × (clean.page_dirty 0 ≡ false)
surface_draw_graphic-reported_example =
    surface_draw_graphic-reported none unset true dark shown one_change clean
      (line 0 0 true ∷ rectangle 0 1 ∷ []) 0 shown_done
