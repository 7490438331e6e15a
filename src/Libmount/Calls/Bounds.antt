-- ===== src/Libmount/Calls/Bounds.antt =====
-- The timeout of `RcMonitor::wait` as the C function sees it.
use net_device_mapping.Libmount.{forever, millis}
use net_device_mapping.Libmount.Calls.{as_c_int, c_timeout}
use net_device_mapping.Netlink.{pos, negsuc}
use net_device_mapping.Prelude.{ℕ, ◌-◌, ◌^◌, ◌≤◌, ◌<◌, ◌≡◌, ◌≢◌, arith}

-- For every c_uint of milliseconds: below 2^31 the C function is given that number; from 2^31 on it is
-- given a negative one, n - 2^32 (and -2 for the largest); and it is never given the -1 of `Forever`.
pub c_timeout_bounds :
    (n : ℕ)
    → n < 2 ^ 32
    → (n < 2 ^ 31 → c_timeout (millis n) ≡ pos n)
      × (2 ^ 31 ≤ n → n < 2 ^ 32 - 1 → c_timeout (millis n) ≡ negsuc (2 ^ 32 - 1 - n))
      × (n ≡ 2 ^ 32 - 1 → c_timeout (millis n) ≡ negsuc 1)
      × (c_timeout (millis n) ≢ c_timeout forever)
unfolding c_timeout as_c_int
c_timeout_bounds n h =
    (λ a. ground arith, λ a b. ground arith, λ a. ground arith, λ a. ground arith)
