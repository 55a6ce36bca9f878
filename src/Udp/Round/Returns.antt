-- ===== src/Udp/Round/Returns.antt =====
-- What `thread_listen` of udp/ex_udp.c does with a link returns.
use utils_modules.Base.{
  ℕ, ◌*◌, ◌/◌, ◌≡◌, refl, Bool, true, false, List, [], Option, none, some, if◌then◌else◌, ◌>>=◌,
  ◌==◌, ◌&&◌, ltb,
}
use utils_modules.Timer.{Time}
use utils_modules.Udp.{Link, send_msg, is_joined, next_seq}
use utils_modules.Udp.Clock.{ms_diff_below}
use utils_modules.Udp.Sock.{Sock}
use utils_modules.Udp.Send.{seq_check_now, send_check}
use utils_modules.Udp.Listen.{
  heartbeat, Watch, watched, given_up, watch, check_watched, listen_link,
}

-- The call returns.
abbrev pub Returns {ℓ} : {A : Type ℓ} → Option A → Type ℓ
Returns {A = A} o = (x : A) × (o ≡ some x)

pub if-Returns {ℓ} :
    {A : Type ℓ} {x y : Option A} (c : Bool) → Returns x → Returns y → Returns (if c then x else y)
if-Returns true p q = p
if-Returns false p q = q

bind-Returns {ℓ κ} :
    {A : Type ℓ} {B : Type κ} (o : Option A) (f : A → Option B)
    → Returns o
    → ((x : A) → Returns (f x))
    → Returns (o >>= f)
bind-Returns none f (x, e) k = absurd cc
bind-Returns (some x) f r k = k x

heartbeat-Returns : (l : Link) → Returns (heartbeat l)
unfolding heartbeat send_msg
heartbeat-Returns l = if-Returns (is_joined l.link_state) (_, refl) ([], refl)

watch-Returns :
    (interval times : ℕ) (s : Sock) (l : Link) (now : Time) → Returns (watch interval times s l now)
unfolding watch
watch-Returns interval times s l now =
    if-Returns (l.timeout.sec == 0) (_, refl)
      (if-Returns (ms_diff_below s.time_listen l.timeout (interval * l.timeout_times)) (_, refl)
        (if-Returns (ltb times l.timeout_times) (_, refl)
          (bind-Returns (heartbeat l) _ (heartbeat-Returns l) (λ out. (_, refl)))))

seq_check_now-Returns :
    (interval : ℕ) (s : Sock) (l : Link) (now : Time) (bytes : List ℕ)
    → Returns (seq_check_now interval s l now bytes)
unfolding seq_check_now send_check send_msg
seq_check_now-Returns interval s l now bytes =
    if-Returns (is_joined l.link_state && ms_diff_below s.time_listen l.timeout interval)
      (if-Returns (l.seq_max_send == next_seq l.seq_check_send) (_, refl)
        (if-Returns (ms_diff_below now l.timeout_send (l.timeout_check_lack.usec / 1000)) (_, refl)
          (_, refl)))
      (_, refl)

check_watched-Returns :
    (interval : ℕ) (s : Sock) (now : Time) (bytes : List ℕ) (w : Watch)
    → Returns (check_watched interval s now bytes w)
unfolding check_watched
check_watched-Returns interval s now bytes given_up = (none, refl)
check_watched-Returns interval s now bytes (watched l out) =
    bind-Returns (seq_check_now interval s l now bytes) _
      (seq_check_now-Returns interval s l now bytes) (λ r. (_, refl))

pub listen_link-Returns :
    (interval times : ℕ) (s : Sock) (l : Link) (now : Time) (bytes : List ℕ)
    → Returns (listen_link interval times s l now bytes)
unfolding listen_link
listen_link-Returns interval times s l now bytes =
    bind-Returns (watch interval times s l now) _ (watch-Returns interval times s l now)
      (check_watched-Returns interval s now bytes)
