-- ===== src/Digitalocean/Wait.antt =====
-- The fuel of `WaitDropletAction` (internal/digitalocean/client.go).
use batch_managementof_cloud.Digitalocean.Client
use batch_managementof_cloud.Prelude.{
  arith, if_both, leb, ltb, refl, ℕ, ◌+◌, ◌||◌, ◌≡◌, Bool-cases, Option, false, if◌then◌else◌, inl,
  inr, pos, str_eq, suc, ℤ, ◌*◌, ◌<◌, ◌≤◌, ap, sym, zero, ◌∙◌,
}
use batch_managementof_cloud.Model.Failure.{Error, Result, err, ok, with_numbers}
use batch_managementof_cloud.Model.Records.{second}
use batch_managementof_cloud.Store.Users.{found}
use batch_managementof_cloud.Provider.{
  Call, Action, Body, account_body, action_body, balance_body, created_body, empty, error_body,
  get_action, malformed, other_body, page_body, sizes_body,
}
use batch_managementof_cloud.Effects.{
  Env, Program, World, pure, raise, send, ◌>>=◌, read_clock, sleep, ◌>>◌, after_tick,
}
use batch_managementof_cloud.Digitalocean.{RateInfo, api_error, parse_rate}
use batch_managementof_cloud.Digitalocean.Client.{
  decode, get_droplet_action, read_action, wait_until, zero_action,
}

-- Two chains agree where their continuations agree.
bind_cong :
    {A B : Type 0} (m : Program A) (f g : A → Program B) (env : Env) (w : World)
    → ((a : A) → f a env (m env w).1 ≡ g a env (m env w).1)
    → (m >>= f) env w ≡ (m >>= g) env w
unfolding ◌>>=◌
bind_cong {A} {B} m f g env w same =
    elim ((m env w).0)
      as (λ r.
        ◌≡◌ {A = Result B × World}
          (elim r as (λ o. Result B × World) [
            | ok a ↦ f a env (m env w).1
            | err e ↦ (err e, (m env w).1)
          ])
          (elim r as (λ o. Result B × World) [
            | ok a ↦ g a env (m env w).1
            | err e ↦ (err e, (m env w).1)
          ])) [ ok a ↦ same a | err e ↦ refl ]

-- A program that has as many effects as `n`, however it ends.
abbrev Takes : {A : Type 0} → ℕ → Program A → Type 0
Takes n m = (env : Env) (w : World) → (m env w).1.tick ≡ w.tick + n

Takes-bind :
    {A B : Type 0} (n : ℕ) (m : Program A) (f : A → Program B)
    → Takes n m
    → ((a : A) → Takes 0 (f a))
    → Takes n (m >>= f)
unfolding ◌>>=◌
Takes-bind {A} {B} n m f hm hf env w =
    elim ((m env w).0)
      as (λ r.
        (elim r as (λ o. Result B × World) [
          | ok a ↦ f a env (m env w).1
          | err e ↦ (err e, (m env w).1)
        ]).1.tick
        ≡ w.tick + n) [
          | ok a ↦ let h = hm env w in let k = hf a env (m env w).1 in omega (arith, h, k)
          | err e ↦ hm env w
        ]

Takes-send : (c : Call) → Takes 1 (send c)
unfolding send
Takes-send c env w = refl

Takes-raise : (A : Type 0) (e : Error) → Takes {A = A} 0 (raise e)
unfolding raise
Takes-raise A e env w = omega arith

Takes-pure : (A : Type 0) (a : A) → Takes 0 (pure a)
unfolding pure
Takes-pure A a env w = omega arith

Takes-request : (c : Call) → Takes 1 (Client.request c)
unfolding Client.request
Takes-request c = Takes-bind 1 (send c) _ (Takes-send c) λ reply.
    if_both (Takes 0) (ltb reply.status_code 200 || leb 300 reply.status_code) _ _
      (Takes-raise _ (api_error reply)) (Takes-pure _ (reply.body, parse_rate reply))

Takes-decode :
    {A : Type 0} (zero_value : A) (read : Body → Option A) (got : Body × RateInfo)
    → Takes 0 (Client.decode zero_value read got)
unfolding Client.decode
Takes-decode zero_value read (empty, rate) = Takes-pure _ _
Takes-decode zero_value read (malformed, rate) = Takes-raise _ _
Takes-decode zero_value read (other_body, rate) = Takes-pure _ _
Takes-decode zero_value read (error_body id message, rate) = Takes-pure _ _
Takes-decode zero_value read (account_body a, rate) = Takes-pure _ _
Takes-decode zero_value read (balance_body b, rate) = Takes-pure _ _
Takes-decode zero_value read (sizes_body sizes, rate) = Takes-pure _ _
Takes-decode zero_value read (page_body droplets link, rate) = Takes-pure _ _
Takes-decode zero_value read (created_body one many actions, rate) = Takes-pure _ _
Takes-decode zero_value read (action_body a, rate) = Takes-pure _ _

Takes-poll : (droplet action : ℤ) → Takes 1 (Client.get_droplet_action droplet action)
unfolding Client.get_droplet_action
Takes-poll droplet action =
    Takes-bind 1 _ _
      (Takes-bind 1 (Client.request (get_action droplet action)) _
        (Takes-request (get_action droplet action))
        (Takes-decode Client.zero_action Client.read_action))
      λ got. Takes-pure _ got.0

-- What follows a poll, given the rest of the wait.
abbrev polled : ℕ → Program Action → Action → Program Action
polled deadline again found =
    if str_eq found.status "completed"
    then pure found
    else if str_eq found.status "errored"
    then raise (with_numbers "digitalocean action errored" found.id (pos 0) (pos 0))
    else read_clock >>= λ time.
        if ltb deadline time
        then raise (with_numbers "digitalocean action timed out" found.id (pos 0) (pos 0))
        else sleep >> again

wait_once :
    (fuel deadline : ℕ) (droplet action : ℤ)
    → Client.wait_until (suc fuel) deadline droplet action ≡ (
        Client.get_droplet_action droplet action
        >>= polled deadline (Client.wait_until fuel deadline droplet action))
unfolding Client.wait_until
wait_once fuel deadline droplet action = refl

-- A poll ends the same way with two rests of the wait that agree 2 effects later, when the clock has
-- not passed the deadline.
polled_cong :
    (deadline : ℕ) (m n : Program Action) (found : Action) (env : Env) (w : World)
    → (ltb deadline (env.clock w.tick) ≡ false
        → (v : World) → v.tick ≡ w.tick + 2
        → m env v ≡ n env v)
    → polled deadline m found env w ≡ polled deadline n found env w
unfolding read_clock sleep ◌>>=◌
polled_cong deadline m n found env w same = elim (Bool-cases (str_eq found.status "completed")) [
  | inl a ↦ rw a refl
  | inr a ↦ elim (Bool-cases (str_eq found.status "errored")) [
    | inl b ↦ rw (a, b) refl
    | inr b ↦ elim (Bool-cases (ltb deadline (env.clock w.tick))) [
      | inl c ↦ rw (a, b, c) refl
      | inr c ↦
          rw (a, b, c)
            (bind_cong sleep (λ done. m) (λ done. n) env (after_tick w)
              λ done. same c _ (omega arith))
    ]
  ]
]

-- The wait for an action ends by itself: if the clock is at least three seconds later after each
-- round of three effects, then a fuel of one more than the rounds that fit before the deadline is
-- enough, since any greater fuel gives the same result in the same world.
pub wait_until-enough :
    (fuel total deadline : ℕ) (droplet action : ℤ) (env : Env) (w : World)
    → fuel ≤ total
    → ((t : ℕ) → env.clock t + 3 * second ≤ env.clock (t + 3))
    → deadline < env.clock (w.tick + 1) + fuel * (3 * second)
    → Client.wait_until (suc fuel) deadline droplet action env w
      ≡ Client.wait_until (suc total) deadline droplet action env w
wait_until-enough zero total deadline droplet action env w le steps h =
    ap (λ (m : Program Action). m env w) (wait_once zero deadline droplet action)
    ∙ bind_cong (Client.get_droplet_action droplet action) _ _ env w (λ found.
      polled_cong deadline _ _ found env (Client.get_droplet_action droplet action env w).1 λ c v k.
        let p = Takes-poll droplet action env w in
        let late = ap (λ t. ltb deadline (env.clock t)) (sym p) ∙ c in absurd (passed late h))
    ∙ sym (ap (λ (m : Program Action). m env w) (wait_once total deadline droplet action))
  where
    passed :
        ltb deadline (env.clock (w.tick + 1)) ≡ false
        → deadline < env.clock (w.tick + 1) + 0 * (3 * second)
        → ⊥
    passed late h = ground arith
wait_until-enough (suc fuel) zero deadline droplet action env w le steps h = absurd (too_small le)
  where
    too_small : suc fuel ≤ 0 → ⊥
    too_small le = omega (arith, le)
wait_until-enough (suc fuel) (suc total) deadline droplet action env w le steps h =
    ap (λ (m : Program Action). m env w) (wait_once (suc fuel) deadline droplet action)
    ∙ bind_cong (Client.get_droplet_action droplet action) _ _ env w (λ found.
      polled_cong deadline _ _ found env (Client.get_droplet_action droplet action env w).1 λ c v k.
        let p = Takes-poll droplet action env w in
        let q : v.tick + 1 ≡ w.tick + 1 + 3 = omega (arith, p, k) in
        let later = steps (w.tick + 1) in
        let same = ap env.clock q in
        wait_until-enough fuel total deadline droplet action env v (omega (arith, le)) steps
          (omega (arith, later, same, h)))
    ∙ sym (ap (λ (m : Program Action). m env w) (wait_once (suc total) deadline droplet action))
