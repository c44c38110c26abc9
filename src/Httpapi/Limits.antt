-- ===== src/Httpapi/Limits.antt =====
-- The pages of a listing and the rate limiter of internal/httpapi/server.go.
use batch_managementof_cloud.Prelude.{
  ℕ, All, Bool, Bool-cases, List, String, [], atoi_value, coalesce, if◌then◌else◌, inl, inr, int64,
  leb, ltb, ltb_ℤ, pos, str_eq, ℤ, ◌&&◌, ◌*ℤ◌, ◌+◌, ◌-ℤ◌, ◌-◌, ◌<◌, ◌∷◌, ◌≡◌, ◌≤ℤ◌, ◌≤◌, ap, arith,
  false, refl, str_eq_iff, subst, sym, true, ◌∙◌, str_eq_refl, *ℤ_pos, int64_of_IsInt64, int_laws,
  two_63, ◌*◌, negsuc, suc, zero,
}
use batch_managementof_cloud.Model.Json.{insert, lookup, lookup-insert}

-- `pagination`, from the texts of `page` and `per_page`: the limit, the offset and the page.
unfoldable pub pagination : String → String → ℤ × ℤ × ℤ
pagination page_text per_page_text =
    let page = if ltb_ℤ (atoi_value page_text) (pos 1) then pos 1 else atoi_value page_text in
    let asked =
      if ltb_ℤ (atoi_value per_page_text) (pos 1) then pos 20 else atoi_value per_page_text in
    let limit = if ltb_ℤ (pos 100) asked then pos 100 else asked in
    (limit, int64 (int64 (page -ℤ pos 1) *ℤ limit), page)

-- `rateEntry`
pub record RateEntry : Type 0 where
  pub count : ℕ
  pub reset : ℕ

-- The map of the limiter, from the keys that it has.
abbrev pub Entries : Type 0
Entries = List (String × RateEntry)

-- `entries[key]`, with the zero value for a missing key.
abbrev pub entry_of : String → Entries → RateEntry
entry_of key entries = coalesce (lookup key entries) (record { count = 0; reset = 0 })

-- The entry after a request at the time.
abbrev pub counted : ℕ → ℕ → RateEntry → RateEntry
counted window now entry =
    if ltb entry.reset now
    then record { count = 1; reset = now + window }
    else record entry { count = entry.count + 1 }

-- `rateLimit` under its mutex: whether the request goes on, and the new map.
unfoldable pub rate_limit : ℕ → ℕ → String → ℕ → Entries → Bool × Entries
rate_limit most window key now entries =
    let entry = counted window now (entry_of key entries) in
    (leb entry.count most, insert key entry entries)

-- A run of requests: how many of those of a key go on.
abbrev pub allowed : ℕ → ℕ → String → List (String × ℕ) → Entries → ℕ
allowed most window key [] entries = 0
allowed most window key ((k, now) ∷ requests) entries =
    let r = rate_limit most window k now entries in
    let rest = allowed most window key requests r.1 in (if str_eq k key && r.0 then 1 else 0) + rest

-- What is left of a window's requests for the entry of a key.
abbrev left_of : ℕ → RateEntry → ℕ
left_of most entry = most - entry.count

entry_of-rate_limit :
    (most window : ℕ) (k key : String) (now : ℕ) (entries : Entries)
    → entry_of key (rate_limit most window k now entries).1
      ≡ (if str_eq k key then counted window now (entry_of key entries) else entry_of key entries)
unfolding rate_limit
entry_of-rate_limit most window k key now entries =
    let e = lookup-insert k key (counted window now (entry_of k entries)) entries in
    elim (Bool-cases (str_eq k key)) [
      | inl same ↦
          ap (λ o. coalesce o (record { count = 0; reset = 0 })) e
          ∙ rw same (ap (λ k. counted window now (entry_of k entries)) ((str_eq_iff k key).0 same))
      | inr apart ↦ ap (λ o. coalesce o (record { count = 0; reset = 0 })) e ∙ rw apart refl
    ]

-- A request of the key itself, within its window.
entry_of-own :
    (most window : ℕ) (k key : String) (now : ℕ) (entries : Entries)
    → str_eq k key ≡ true
    → now ≤ (entry_of key entries).reset
    → entry_of key (rate_limit most window k now entries).1
      ≡ record { count = (entry_of key entries).count + 1; reset = (entry_of key entries).reset }
entry_of-own most window k key now entries same h =
    entry_of-rate_limit most window k key now entries ∙ rw same (rw open_still refl)
  where
    open_still : ltb (entry_of key entries).reset now ≡ false
    open_still = ground arith

rate_limit-own :
    (most window : ℕ) (k key : String) (now : ℕ) (entries : Entries)
    → str_eq k key ≡ true
    → now ≤ (entry_of key entries).reset
    → (rate_limit most window k now entries).0 ≡ leb ((entry_of key entries).count + 1) most
unfolding rate_limit
rate_limit-own most window k key now entries same h =
    ap (λ k. leb (counted window now (entry_of k entries)).count most) ((str_eq_iff k key).0 same)
    ∙ rw open_still refl
  where
    open_still : ltb (entry_of key entries).reset now ≡ false
    open_still = ground arith

-- While the window of a key's entry lasts, no more of its requests go on than its limit leaves,
-- whatever other keys ask for in between.
allowed-left :
    (most window : ℕ) (key : String) (requests : List (String × ℕ)) (entries : Entries)
    → All (λ (r : String × ℕ). r.1 ≤ (entry_of key entries).reset) requests
    → allowed most window key requests entries ≤ left_of most (entry_of key entries)
allowed-left most window key [] entries h = omega arith
allowed-left most window key ((k, now) ∷ requests) entries h = elim (Bool-cases (str_eq k key)) [
  | inl same ↦
      let e = entry_of-own most window k key now entries same h.0 in
      let ih =
        allowed-left most window key requests (rate_limit most window k now entries).1 (
          subst (λ (x : RateEntry). All (λ (r : String × ℕ). r.1 ≤ x.reset) requests) (sym e)
            h.1) in
      let c = ap (left_of most) e in
      rw (same, rate_limit-own most window k key now entries same h.0) (ground (arith, ih, c))
  | inr apart ↦
      let e : entry_of key (rate_limit most window k now entries).1 ≡ entry_of key entries =
        entry_of-rate_limit most window k key now entries ∙ rw apart refl in
      let ih =
        allowed-left most window key requests (rate_limit most window k now entries).1 (
          subst (λ (x : RateEntry). All (λ (r : String × ℕ). r.1 ≤ x.reset) requests) (sym e)
            h.1) in
      let c = ap (left_of most) e in rw apart (omega (arith, ih, c))
]

-- A request that opens a window.
rate_limit-first :
    (most window : ℕ) (key : String) (start : ℕ) (entries : Entries)
    → (entry_of key entries).reset < start
    → (rate_limit most window key start entries).0 ≡ leb 1 most
unfolding rate_limit
rate_limit-first most window key start entries fresh = rw opens refl
  where
    opens : ltb (entry_of key entries).reset start ≡ true
    opens = ground arith

-- The limiter lets no more than `most` requests of a key go on within one window, however the
-- requests of other keys come in between: from a request that opens a window at `start` on, as long
-- as the times of the requests are at most `start + window`.
pub rate_limit-most :
    (most window start : ℕ) (key : String) (requests : List (String × ℕ)) (entries : Entries)
    → (entry_of key entries).reset < start
    → All (λ (r : String × ℕ). r.1 ≤ start + window) requests
    → allowed most window key ((key, start) ∷ requests) entries ≤ most
rate_limit-most most window start key requests entries fresh h =
    let e = entry_of-rate_limit most window key key start entries ∙ opened in
    let ih =
      allowed-left most window key requests (rate_limit most window key start entries).1
        (subst (λ (x : RateEntry). All (λ (r : String × ℕ). r.1 ≤ x.reset) requests) (sym e) h) in
    let c = ap (left_of most) e in
    rw (str_eq_refl key, rate_limit-first most window key start entries fresh)
      (ground (arith, ih, c))
  where
    now_closed : ltb (entry_of key entries).reset start ≡ true
    now_closed = ground arith

    opened :
        (if str_eq key key
          then counted window start (entry_of key entries)
          else entry_of key entries)
        ≡ record { count = 1; reset = start + window }
    opened = rw (str_eq_refl key) (rw now_closed refl)

product_le : (a l : ℕ) → l ≤ 100 → a * l ≤ a * 100
product_le zero l h = ground arith
product_le (suc a) l h = let rest = product_le a l h in ground arith

-- The offset of a page, for numbers of rows that are in range.
offset_exact :
    (before limit : ℕ)
    → before ≤ 92233720368547757
    → limit ≤ 100
    → int64 (int64 (pos (before + 1) -ℤ pos 1) *ℤ pos limit) ≡ pos (before * limit)
offset_exact before limit h k =
    ap (λ a. int64 (int64 a *ℤ pos limit)) minus
    ∙ ap (λ a. int64 (a *ℤ pos limit)) (int64_of_IsInt64 (pos before) (omega arith, omega arith))
    ∙ ap int64 (*ℤ_pos before limit)
    ∙ int64_of_IsInt64 (pos (before * limit)) (small, omega arith)
  where
    minus : pos (before + 1) -ℤ pos 1 ≡ pos before
    minus = grind int_laws

    small : before * limit < two_63
    small = let most = product_le before limit k in omega (arith, most)

offset_lem :
    (page limit : ℤ) (before : ℕ)
    → page ≡ pos (before + 1)
    → before ≤ 92233720368547757
    → pos 1 ≤ℤ limit
    → limit ≤ℤ pos 100
    → int64 (int64 (page -ℤ pos 1) *ℤ limit) ≡ pos before *ℤ limit
offset_lem page (pos l) before e h low high =
    ap (λ p. int64 (int64 (p -ℤ pos 1) *ℤ pos l)) e
    ∙ offset_exact before l h (ground arith)
    ∙ sym (*ℤ_pos before l)
offset_lem page (negsuc l) before e h low high = ground arith

-- A page has between 1 and 100 rows and a number of at least 1, whatever the request asks for.
pub pagination-bounds :
    (page_text per_page_text : String)
    → (pos 1 ≤ℤ (pagination page_text per_page_text).0)
      × ((pagination page_text per_page_text).0 ≤ℤ pos 100)
      × (pos 1 ≤ℤ (pagination page_text per_page_text).2)
unfolding pagination
pagination-bounds page_text per_page_text = (ground arith, ground arith, ground arith)

-- The page that comes after `before` others begins after their rows: its offset is `before` times
-- the number of rows of a page, for a `before` of at most 92233720368547757, up to which the 64-bit
-- product does not wrap.
pub pagination-offset :
    (page_text per_page_text : String) (before : ℕ)
    → before ≤ 92233720368547757
    → (pagination page_text per_page_text).2 ≡ pos (before + 1)
    → (pagination page_text per_page_text).1 ≡ pos before *ℤ (pagination page_text per_page_text).0
unfolding pagination
pagination-offset page_text per_page_text before h e =
    offset_lem _ _ before e h (ground arith) (ground arith)
