-- ===== src/Agent/Hardware/Offload.antt =====
-- When the program may offload layers to a GPU: `any(supports_llama_offload)` over what is detected.
use sovereign_edge_tee_agent.Base.{
  Bytes, text, Bool, true, false, ◌||◌, ◌≡◌, ◌⊎◌, ◌↔◌, inl, inr, refl, sym, ◌∙◌, arith, ◌++◌, List,
  [], ◌∷◌, some, bytes_eq, Bool-cases, Option-cases,
}
use sovereign_edge_tee_agent.Base.Utf8.{from_utf8_lossy}
use sovereign_edge_tee_agent.Agent.Hardware.{
  Host, Vendor, offload_vendor, Accelerator, supports_llama_offload, vendor_from_pci_id, join,
}
use sovereign_edge_tee_agent.Agent.Hardware.Detect.{
  drm_dir, entries_of, is_device, sysfs_read, drm_gpus, detect_drm_gpus, accel_npus,
  detect_accel_npus, misc_npus, detect_misc_npus, detect_accelerators,
}

unfoldable pub any_offload : List Accelerator → Bool
any_offload [] = false
any_offload (a ∷ as') = supports_llama_offload a || any_offload as'

or_false : (b : Bool) → (b || false) ≡ b
or_false true = refl
or_false false = refl

any_offload-append :
    (xs ys : List Accelerator) → any_offload (xs ++ ys) ≡ (any_offload xs || any_offload ys)
unfolding any_offload
any_offload-append [] ys = refl
any_offload-append (x ∷ xs) ys = ground (arith, any_offload-append xs ys)

-- Some element of the list has the property.
abbrev pub Any {ℓ} : {A : Type ℓ} → (A → Type 0) → List A → Type 0
Any P [] = ⊥
Any P (x ∷ xs) = P x ⊎ Any P xs

-- The PCI vendors NVIDIA, AMD (two ids) and Intel.
abbrev pub offload_id : Bytes → Bool
offload_id id =
    bytes_eq id (text "0x10de")
    || bytes_eq id (text "0x1002")
    || bytes_eq id (text "0x1022")
    || bytes_eq id (text "0x8086")

vendor_from_pci_id_lem : (id : Bytes) → offload_vendor (vendor_from_pci_id id) ≡ offload_id id
unfolding vendor_from_pci_id
vendor_from_pci_id_lem id = ground arith

module _ {F32 : Type 0} (host : Host F32) where
  -- An entry of /sys/class/drm that stands for a card of such a vendor.
  pub record IsOffloadCard (file_name : Bytes) : Type 0 where
    pub is_card : is_device (text "card") (from_utf8_lossy file_name) ≡ true
    pub vendor_id : Bytes
    pub read_id :
        sysfs_read host (join (join (join drm_dir file_name) (text "device")) (text "vendor"))
        ≡ some vendor_id
    pub offloads : offload_id vendor_id ≡ true

  accel_npus_none : (names : List Bytes) → any_offload (accel_npus host names) ≡ false
  unfolding any_offload accel_npus supports_llama_offload
  accel_npus_none [] = refl
  accel_npus_none (n ∷ names) = ground (arith, accel_npus_none names)

  misc_npus_none :
      (prefix : Bytes) (v : Vendor) (name : Bytes) (names : List Bytes)
      → any_offload (misc_npus host prefix v name names) ≡ false
  unfolding any_offload misc_npus supports_llama_offload
  misc_npus_none prefix v name [] = refl
  misc_npus_none prefix v name (n ∷ names) = ground (arith, misc_npus_none prefix v name names)

  drm_gpus_iff :
      (names : List Bytes) → (any_offload (drm_gpus host names) ≡ true) ↔ Any IsOffloadCard names
  unfolding any_offload drm_gpus supports_llama_offload
  drm_gpus_iff [] = ground arith
  drm_gpus_iff (n ∷ names) =
      let dir = join (join drm_dir n) (text "device") in
      let ih = drm_gpus_iff names in
      elim (Bool-cases (is_device (text "card") (from_utf8_lossy n))) [
        | inr not_card ↦ (
          (λ e. inr (ih.0 (ground arith))),
          (λ h. elim h [
            | inl c ↦ absurd (cc (not_card, c.is_card))
            | inr later ↦ ground (arith, ih.1 later)
          ]),
        )
        | inl is_card ↦ elim (Option-cases (sysfs_read host (join dir (text "vendor")))) [
          | inl unread ↦ (
            (λ e. inr (ih.0 (ground arith))),
            (λ h. elim h [
              | inl c ↦ absurd (cc (unread, c.read_id))
              | inr later ↦ ground (arith, ih.1 later)
            ]),
          )
          | inr (id, read) ↦
              let vendor = vendor_from_pci_id_lem id in
              elim (Bool-cases (offload_id id)) [
                | inl good ↦ (
                  (λ e. inl (record {
                    is_card = is_card;
                    vendor_id = id;
                    read_id = read;
                    offloads = good;
                  })),
                  (λ h. ground arith),
                )
                | inr bad ↦ (
                  (λ e. inr (ih.0 (ground arith))),
                  (λ h. elim h [
                    | inl c ↦
                        let same : some c.vendor_id ≡ some id = sym c.read_id ∙ read in
                        absurd (ground (arith, c.offloads))
                    | inr later ↦ ground (arith, ih.1 later)
                  ]),
                )
              ]
        ]
      ]

  only_cards :
      any_offload (detect_accelerators host)
      ≡ any_offload (drm_gpus host (entries_of (host.read_dir drm_dir)))
  unfolding detect_accelerators detect_drm_gpus detect_accel_npus detect_misc_npus
  only_cards = simp (any_offload-append, accel_npus_none, misc_npus_none) (or_false _)

  -- An offload is possible exactly when /sys/class/drm has a readable entry `card..` without a dash whose
  -- `device/vendor` file has, trimmed, the PCI id of NVIDIA, AMD or Intel: no NPU counts, and no other
  -- attribute is asked.
  pub offload_available_iff :
      (any_offload (detect_accelerators host) ≡ true)
      ↔ Any IsOffloadCard (entries_of (host.read_dir drm_dir))
  offload_available_iff = rw only_cards (drm_gpus_iff (entries_of (host.read_dir drm_dir)))
