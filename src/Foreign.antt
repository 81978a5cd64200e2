-- ===== src/Foreign.antt =====
-- What the agent takes from code that it carries along or links: the string buffers of
-- src/foreign/vsb.c, as an interface with the laws that the agent relies on.
use vagent.Prelude.{◌≡◌, [], ◌++◌, Str}

-- `struct vsb` of automatic size. VSB_printf, VSB_cat, VSB_bcat and VSB_putc append.
pub record VsbOps : Type 1 where
  pub Vsb : Type 0
  pub vsb_new_auto : Vsb
  pub vsb_bcat : Vsb → Str → Vsb
  pub vsb_clear : Vsb → Vsb
  -- VSB_data and VSB_len: the bytes written so far
  pub vsb_data : Vsb → Str

-- vsb.h: a new or cleared buffer is empty, and what is written is found at the end.
pub record IsBuffer (v : VsbOps) : Type 0 where
  pub data-new : v.vsb_data v.vsb_new_auto ≡ []
  pub data-clear : (b : v.Vsb) → v.vsb_data (v.vsb_clear b) ≡ []
  pub data-bcat : (b : v.Vsb) (s : Str) → v.vsb_data (v.vsb_bcat b s) ≡ v.vsb_data b ++ s
