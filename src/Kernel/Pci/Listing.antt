-- ===== src/Kernel/Pci/Listing.antt =====
-- What `scan` (mik-os-x86/kernel/src/pci.rs) prints, on ports that lead to a configuration space.
use mik_os.Common.{
  ℕ, zero, suc, ◌+◌, ◌*◌, ◌%◌, ◌^◌, ◌≤◌, ◌<◌, bit_and, bit_or, ◌≡◌, refl, sym, ap, ap₂, subst, ◌∙◌,
  arith, ◌==◌, if◌then◌else◌, Bool, true, false, not, ◌&&◌, ◌||◌, List, [], ◌++◌, Bool-cases, inl,
  inr,
}
use mik_os.Common.Bits.{bit_or-shifted}
use mik_os.Kernel.Ports.{Ports}
use mik_os.Kernel.Pci.{
  addr_port, data_port, cfg_addr, line, title, for_each, cfg_read, scan_func, scan_dev, scan,
}

-- The address of a register of a function: its fields side by side.
abbrev pub register : ℕ → ℕ → ℕ → ℕ → ℕ
register bus dev func reg = 2 ^ 31 + bus * 2 ^ 16 + dev * 2 ^ 11 + func * 2 ^ 8 + reg * 4

or_fields : (k q r x : ℕ) → x ≡ q * 2 ^ k → r < 2 ^ k → bit_or x r ≡ x + r
or_fields k q r x e lt = rw e (bit_or-shifted k q r lt)

cfg_addr-register :
    (bus dev func reg : ℕ)
    → bus < 256
    → dev < 32
    → func < 8
    → reg < 64
    → cfg_addr bus dev func reg ≡ register bus dev func reg
unfolding cfg_addr
cfg_addr-register bus dev func reg hb hd hf hr =
    rw
      (
        or_fields 31 1 (bus * 2 ^ 16) 0x80000000 refl (omega (arith, hb)),
        or_fields 16 (2 ^ 15 + bus) (dev * 2 ^ 11) (0x80000000 + bus * 2 ^ 16) (omega arith)
            (omega (arith, hd)),
        or_fields 11 (2 ^ 20 + bus * 2 ^ 5 + dev) (func * 2 ^ 8)
            (0x80000000 + bus * 2 ^ 16 + dev * 2 ^ 11) (omega arith) (omega (arith, hf)),
        or_fields 8 (2 ^ 23 + bus * 2 ^ 8 + dev * 2 ^ 3 + func) (reg * 2 ^ 2)
            (0x80000000 + bus * 2 ^ 16 + dev * 2 ^ 11 + func * 2 ^ 8) (omega arith)
            (omega (arith, hr)),
      )
      refl

-- The laws: a word written to the address port chooses what the data port reads, and reading changes
-- nothing of it.
pub record IsPci (p : Ports) (config : p.State → ℕ → ℕ) : Type 0 where
  pub value : (s : p.State) (a : ℕ) → (p.inl (p.outl s addr_port a) data_port).0 ≡ config s a
  pub kept : (s : p.State) (a : ℕ) → config (p.inl (p.outl s addr_port a) data_port).1 ≡ config s

-- The functions that are listed: the vendor is there, that of function 0 as well, and functions past 0
-- belong to a device whose header has the bit for several functions.
abbrev pub has_vendor : (ℕ → ℕ) → ℕ → ℕ → ℕ → Bool
has_vendor config bus dev func = not (config (register bus dev func 0) % 2 ^ 16 == 0xFFFF)

abbrev pub is_listed : (ℕ → ℕ) → ℕ → ℕ → ℕ → Bool
is_listed config bus dev func =
    (has_vendor config bus dev 0
      && (func == 0 || not (bit_and (config (register bus dev 0 3)) 0x00800000 == 0)))
    && has_vendor config bus dev func

abbrev pub listed_line : (ℕ → ℕ) → ℕ → ℕ → ℕ → List ℕ
listed_line config bus dev func =
    if is_listed config bus dev func
    then line bus dev func (config (register bus dev func 0)) (config (register bus dev func 2))
    else []

-- The line of a function with a vendor.
abbrev vendor_line : (ℕ → ℕ) → ℕ → ℕ → ℕ → List ℕ
vendor_line config bus dev func =
    if has_vendor config bus dev func
    then line bus dev func (config (register bus dev func 0)) (config (register bus dev func 2))
    else []

abbrev several : (ℕ → ℕ) → ℕ → ℕ → Bool
several config bus dev = not (bit_and (config (register bus dev 0 3)) 0x00800000 == 0)

-- The lines for `n` numbers from `from` on.
unfoldable pub lines_of : ℕ → ℕ → (ℕ → List ℕ) → List ℕ
lines_of zero from text = []
lines_of (suc n) from text = text from ++ lines_of n (from + 1) text

unfoldable pub listing : (ℕ → ℕ) → List ℕ
listing config =
    title ++ lines_of 256 0 λ bus. lines_of 32 0 λ dev. lines_of 8 0 (listed_line config bus dev)

lines_of-nil :
    (n from : ℕ) (text : ℕ → List ℕ)
    → ((i : ℕ) → from ≤ i → text i ≡ [])
    → lines_of n from text ≡ []
unfolding lines_of
lines_of-nil zero from text h = refl
lines_of-nil (suc n) from text h =
    rw (h from (omega arith)) (lines_of-nil n (from + 1) text λ i le. h i (omega (arith, le)))

listed_line-vendor_line :
    (config : ℕ → ℕ) (bus dev func : ℕ)
    → (config (register bus dev 0 0) % 2 ^ 16 == 0xFFFF) ≡ false
    → (func == 0 || several config bus dev) ≡ true
    → listed_line config bus dev func ≡ vendor_line config bus dev func
listed_line-vendor_line config bus dev func there open_func = rw (there, open_func) refl

absent_lines :
    (config : ℕ → ℕ) (bus dev : ℕ)
    → (config (register bus dev 0 0) % 2 ^ 16 == 0xFFFF) ≡ true
    → lines_of 8 0 (listed_line config bus dev) ≡ []
absent_lines config bus dev gone =
    lines_of-nil 8 0 (listed_line config bus dev) λ i le. rw gone refl

single_lines :
    (config : ℕ → ℕ) (bus dev : ℕ)
    → several config bus dev ≡ false
    → lines_of 8 0 (listed_line config bus dev) ≡ lines_of 1 0 (listed_line config bus dev)
unfolding lines_of
single_lines config bus dev single =
    ap (λ t. listed_line config bus dev 0 ++ t)
      (lines_of-nil 7 1 (listed_line config bus dev) λ i le.
        let e : (i == 0) ≡ false = ground (arith, le) in
        elim (Bool-cases (has_vendor config bus dev 0)) [
          | inl v ↦ rw (e, single, v) refl
          | inr v ↦ rw (e, single, v) refl
        ])

module _ (p : Ports) (config : p.State → ℕ → ℕ) (pci : IsPci p config) where
  -- A step that prints `text` and keeps the configuration space.
  Prints : p.State → List ℕ → List ℕ × p.State → Type 0
  Prints s text r = (r.0 ≡ text) × (config r.1 ≡ config s)

  for_each-lines_of :
      (n from : ℕ) (body : ℕ → p.State → List ℕ × p.State) (text : ℕ → List ℕ) (s : p.State)
      (bound : ℕ)
      → from + n ≤ bound
      → ((i : ℕ) (s' : p.State) → i < bound → config s' ≡ config s → Prints s (text i) (body i s'))
      → (s' : p.State) → config s' ≡ config s
      → Prints s (lines_of n from text) (for_each n from body s')
  unfolding for_each lines_of Prints
  for_each-lines_of zero from body text s bound fits h s' same = (refl, same)
  for_each-lines_of (suc n) from body text s bound fits h s' same =
      let one = h from s' (omega (arith, fits)) same in
      let rest =
        for_each-lines_of n (from + 1) body text s bound (omega (arith, fits)) h (body from s').1
          one.1 in
      (ap₂ ◌++◌ one.0 rest.0, rest.1)

  read_value :
      (bus dev func reg : ℕ) (s s' : p.State)
      → bus < 256
      → dev < 32
      → func < 8
      → reg < 64
      → config s' ≡ config s
      → ((cfg_read p bus dev func reg s').0 ≡ config s (register bus dev func reg))
        × (config (cfg_read p bus dev func reg s').1 ≡ config s)
  unfolding cfg_read
  read_value bus dev func reg s s' hb hd hf hr same = (
    pci.value s' (cfg_addr bus dev func reg)
        ∙ ap₂ (λ (c : ℕ → ℕ) (a : ℕ). c a) same (cfg_addr-register bus dev func reg hb hd hf hr),
    pci.kept s' (cfg_addr bus dev func reg) ∙ same,
  )

  -- The innermost loop's body, on a function whose device has been found.
  scan_func-Prints :
      (bus dev func : ℕ) (s s' : p.State)
      → bus < 256
      → dev < 32
      → func < 8
      → config s' ≡ config s
      → Prints s (vendor_line (config s) bus dev func) (scan_func p bus dev func s')
  unfolding scan_func Prints
  scan_func-Prints bus dev func s s' hb hd hf same =
      let id = read_value bus dev func 0 s s' hb hd hf (omega arith) same in
      let class =
        read_value bus dev func 2 s (cfg_read p bus dev func 0 s').1 hb hd hf (omega arith) id.1 in
      elim (Bool-cases (config s (register bus dev func 0) % 2 ^ 16 == 0xFFFF)) [
        | inl gone ↦ rw (id.0, gone) (refl, id.1)
        | inr there ↦ rw (id.0, there, class.0) (refl, class.1)
      ]

  -- The innermost loop, over the functions that the device has.
  funcs_print :
      (bus dev n : ℕ) (s s' : p.State)
      → bus < 256
      → dev < 32
      → n ≤ 8
      → (config s (register bus dev 0 0) % 2 ^ 16 == 0xFFFF) ≡ false
      → ((i : ℕ) → i < n → (i == 0 || several (config s) bus dev) ≡ true)
      → config s' ≡ config s
      → Prints s
          (lines_of n 0 (listed_line (config s) bus dev))
          (for_each n 0 (scan_func p bus dev) s')
  funcs_print bus dev n s s' hb hd fits there open_func same =
      for_each-lines_of n 0 (scan_func p bus dev) (listed_line (config s) bus dev) s n (omega arith)
        (λ i t lt h.
          subst (λ (l : List ℕ). Prints s l (scan_func p bus dev i t))
            (sym (listed_line-vendor_line (config s) bus dev i there (open_func i lt)))
            (scan_func-Prints bus dev i s t hb hd (omega (arith, lt, fits)) h))
        s' same

  scan_dev-Prints :
      (bus dev : ℕ) (s s' : p.State)
      → bus < 256
      → dev < 32
      → config s' ≡ config s
      → Prints s (lines_of 8 0 (listed_line (config s) bus dev)) (scan_dev p bus dev s')
  unfolding scan_dev Prints
  scan_dev-Prints bus dev s s' hb hd same =
      let id = read_value bus dev 0 0 s s' hb hd (omega arith) (omega arith) same in
      let header =
        read_value bus dev 0 3 s (cfg_read p bus dev 0 0 s').1 hb hd (omega arith) (omega arith)
          id.1 in
      elim (Bool-cases (config s (register bus dev 0 0) % 2 ^ 16 == 0xFFFF)) [
        | inl gone ↦
            (let none_there : scan_dev p bus dev s' ≡ ([], (cfg_read p bus dev 0 0 s').1) =
                rw (id.0, gone, scan_dev) refl in
              subst (Prints s _) (sym none_there)
                (sym (absent_lines (config s) bus dev gone), id.1))
        | inr there ↦
            (let s2 = (cfg_read p bus dev 0 3 (cfg_read p bus dev 0 0 s').1).1 in
              let lines = lines_of 8 0 (listed_line (config s) bus dev) in
              elim (Bool-cases (several (config s) bus dev)) [
                | inl many ↦
                    (let all : scan_dev p bus dev s' ≡ for_each 8 0 (scan_func p bus dev) s2 =
                        rw (id.0, there, header.0, many, scan_dev) refl in
                      subst (Prints s lines) (sym all) (
                        funcs_print bus dev 8 s s2 hb hd (omega arith) there
                          (λ i lt. rw many (ground arith)) header.1))
                | inr single ↦
                    (let one : scan_dev p bus dev s' ≡ for_each 1 0 (scan_func p bus dev) s2 =
                        rw (id.0, there, header.0, single, scan_dev) refl in
                      subst (Prints s lines) (sym one) (
                        subst (λ (l : List ℕ). Prints s l (for_each 1 0 (scan_func p bus dev) s2))
                          (sym (single_lines (config s) bus dev single))
                          (funcs_print bus dev 1 s s2 hb hd (omega arith) there
                            (λ i lt. let e : (i == 0) ≡ true = ground (arith, lt) in rw e refl)
                            header.1)))
              ])
      ]

  -- `scan` prints a title, and a line for each function that is listed, by bus, device and function,
  -- and leaves the configuration space.
  pub scan-listing :
      (s : p.State) → ((scan p s).0 ≡ listing (config s)) × (config (scan p s).1 ≡ config s)
  unfolding scan listing Prints
  scan-listing s =
      let dev_text = λ (bus dev : ℕ). lines_of 8 0 (listed_line (config s) bus dev) in
      let all =
        for_each-lines_of 256 0 (λ bus. for_each 32 0 (scan_dev p bus))
          (λ bus. lines_of 32 0 (dev_text bus)) s 256 (omega arith)
          (λ bus t hb h.
            for_each-lines_of 32 0 (scan_dev p bus) (dev_text bus) s 32 (omega arith)
              (λ dev t' hd h'. scan_dev-Prints bus dev s t' hb hd h') t h)
          s refl in
      (ap (λ t. title ++ t) all.0, all.1)
