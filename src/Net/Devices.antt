-- ===== src/Net/Devices.antt =====
-- The table of devices of src/drivers/netdev.c.
use lite_bsd.Prelude.{
  Bool, true, false, Option, none, some, List, [], ◌∷◌, ◌++◌, ◌==◌, leb, if◌then◌else◌, length,
  bit_and,
}
use lite_bsd.Net.State.{Network, Device}
use lite_bsd.Net.Send.{polled}

unfoldable pub netdev_register : Device → List Device → List Device × Bool
netdev_register dev devices =
    if leb 8 (length devices) then (devices, false) else (devices ++ (dev ∷ []), true)

-- The first device that is no loopback, `IFF_LOOPBACK` being 8.
unfoldable pub first_physical : List Device → Option Device
first_physical [] = none
first_physical (dev ∷ devices) =
    let rest = first_physical devices in if bit_and dev.flags 8 == 0 then some dev else rest

unfoldable pub or_first : Option Device → List Device → Option Device
or_first (some dev) devices = some dev
or_first none [] = none
or_first none (dev ∷ devices) = some dev

unfoldable pub netdev_get_default : List Device → Option Device
unfolding first_physical or_first
netdev_get_default devices = or_first (first_physical devices) devices

unfoldable pub netdev_poll_all : List Device → Network → Network
netdev_poll_all [] net = net
netdev_poll_all (dev ∷ devices) net = netdev_poll_all devices (polled dev.poll net)
