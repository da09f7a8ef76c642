-- ===== src/Names/Riscv.antt =====
-- `riscv_register_as_string()` of remote_bitbang.cpp: the registers of the processor.
use Prim.Native.String.{String}
use riscv_openocd_jtag_mock.Prelude.{ℕ, ◌-◌, List, [], ◌∷◌, leb, if◌then◌else◌}
use riscv_openocd_jtag_mock.Names.Switch.{switch}

-- The cases of the switch, in order.
abbrev pub riscv_register_cases : List (ℕ × String)
riscv_register_cases =
    (0, "zero")
    ∷ (1, "ra")
    ∷ (2, "sp")
    ∷ (3, "gp")
    ∷ (4, "tp")
    ∷ (5, "t0")
    ∷ (6, "t1")
    ∷ (7, "t2")
    ∷ (8, "s0/fp")
    ∷ (9, "s1")
    ∷ (10, "a0")
    ∷ (11, "a1")
    ∷ (12, "a2")
    ∷ (13, "a3")
    ∷ (14, "a4")
    ∷ (15, "a5")
    ∷ (16, "a6")
    ∷ (17, "a7")
    ∷ (18, "s2")
    ∷ (19, "s3")
    ∷ (20, "s4")
    ∷ (21, "s5")
    ∷ (22, "s6")
    ∷ (23, "s7")
    ∷ (24, "s8")
    ∷ (25, "s9")
    ∷ (26, "s10")
    ∷ (27, "s11")
    ∷ (28, "t3")
    ∷ (29, "t4")
    ∷ (30, "t5")
    ∷ (31, "t6")
    ∷ (0x0300, "CSR_MSTATUS 0x0300 (Machine Mode Status Register, ZICSR extension)")
    ∷ (
      0x0301,
      "CSR_MISA 0x301 - Machine ISA register (misa) (Machine Mode Status Register, ZICSR extension)",
    )
    ∷ (0x035c, "0x035c Machine top external interrupt (only with an IMSIC) (mtopei)")
    ∷ (0x600, "CSR_HSTATUS")
    ∷ (0x602, "CSR_HEDELEG")
    ∷ (0x603, "CSR_HIDELEG")
    ∷ (0x604, "CSR_HIE")
    ∷ (0x606, "CSR_HCOUNTEREN")
    ∷ (0x607, "CSR_HGEIE")
    ∷ (0x643, "CSR_HTVAL")
    ∷ (0x644, "CSR_HIP")
    ∷ (0x645, "CSR_HVIP")
    ∷ (0x64a, "CSR_HTINST")
    ∷ (0xe12, "CSR_HGEIP")
    ∷ (0x60a, "CSR_HENVCFG")
    ∷ (0x61a, "CSR_HENVCFGH")
    ∷ (0x680, "CSR_HGATP")
    ∷ (0x605, "CSR_HTIMEDELTA")
    ∷ (0x615, "CSR_HTIMEDELTAH")
    ∷ (0x07b0, "Debug Control and Status (dcsr, at 0x7b0)")
    ∷ (0x07b1, "Debug PC (dpc, at 0x7b1)")
    ∷ (0x07b2, "Debug Scratch Register 0 (dscratch0, at 0x7b2)")
    ∷ (0x07b3, "Debug Scratch Register 1 (dscratch1, at 0x7b3)")
    ∷ (0x0c22, "SR_VLENB 0xc22")
    ∷ (0x0fb0, "0x0fb0 - Machine Top Interrupt (mtopi)")
    ∷ (0x1008, "s0/fp + gdb offset of 0x1000. I do not know why!")
    ∷ []

-- OpenOCD asks for a register of the processor by its number and 0x1000.
unfoldable pub without_offset : ℕ → ℕ
without_offset register_index =
    if leb 0x1000 register_index then register_index - 0x1000 else register_index

unfoldable pub riscv_register_as_string : ℕ → String
unfolding without_offset
riscv_register_as_string register_index =
    switch (without_offset register_index) riscv_register_cases
