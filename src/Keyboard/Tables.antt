-- ===== src/Keyboard/Tables.antt =====
-- The table of core/input/vkeys.js.
use Prim.Native.String.{String}
use proxmox_self_service_por.Prelude.{ℕ, List, [], ◌∷◌}

-- Windows virtual-key codes and key codes
abbrev pub vkeys : List (ℕ × String)
vkeys =
    (8, "Backspace")
    ∷ (9, "Tab")
    ∷ (10, "NumpadClear")
    ∷ (13, "Enter")
    ∷ (16, "ShiftLeft")
    ∷ (17, "ControlLeft")
    ∷ (18, "AltLeft")
    ∷ (19, "Pause")
    ∷ (20, "CapsLock")
    ∷ (21, "Lang1")
    ∷ (25, "Lang2")
    ∷ (27, "Escape")
    ∷ (28, "Convert")
    ∷ (29, "NonConvert")
    ∷ (32, "Space")
    ∷ (33, "PageUp")
    ∷ (34, "PageDown")
    ∷ (35, "End")
    ∷ (36, "Home")
    ∷ (37, "ArrowLeft")
    ∷ (38, "ArrowUp")
    ∷ (39, "ArrowRight")
    ∷ (40, "ArrowDown")
    ∷ (41, "Select")
    ∷ (44, "PrintScreen")
    ∷ (45, "Insert")
    ∷ (46, "Delete")
    ∷ (47, "Help")
    ∷ (48, "Digit0")
    ∷ (49, "Digit1")
    ∷ (50, "Digit2")
    ∷ (51, "Digit3")
    ∷ (52, "Digit4")
    ∷ (53, "Digit5")
    ∷ (54, "Digit6")
    ∷ (55, "Digit7")
    ∷ (56, "Digit8")
    ∷ (57, "Digit9")
    ∷ (91, "MetaLeft")
    ∷ (92, "MetaRight")
    ∷ (93, "ContextMenu")
    ∷ (95, "Sleep")
    ∷ (96, "Numpad0")
    ∷ (97, "Numpad1")
    ∷ (98, "Numpad2")
    ∷ (99, "Numpad3")
    ∷ (100, "Numpad4")
    ∷ (101, "Numpad5")
    ∷ (102, "Numpad6")
    ∷ (103, "Numpad7")
    ∷ (104, "Numpad8")
    ∷ (105, "Numpad9")
    ∷ (106, "NumpadMultiply")
    ∷ (107, "NumpadAdd")
    ∷ (108, "NumpadDecimal")
    ∷ (109, "NumpadSubtract")
    ∷ (110, "NumpadDecimal")
    ∷ (111, "NumpadDivide")
    ∷ (112, "F1")
    ∷ (113, "F2")
    ∷ (114, "F3")
    ∷ (115, "F4")
    ∷ (116, "F5")
    ∷ (117, "F6")
    ∷ (118, "F7")
    ∷ (119, "F8")
    ∷ (120, "F9")
    ∷ (121, "F10")
    ∷ (122, "F11")
    ∷ (123, "F12")
    ∷ (124, "F13")
    ∷ (125, "F14")
    ∷ (126, "F15")
    ∷ (127, "F16")
    ∷ (128, "F17")
    ∷ (129, "F18")
    ∷ (130, "F19")
    ∷ (131, "F20")
    ∷ (132, "F21")
    ∷ (133, "F22")
    ∷ (134, "F23")
    ∷ (135, "F24")
    ∷ (144, "NumLock")
    ∷ (145, "ScrollLock")
    ∷ (166, "BrowserBack")
    ∷ (167, "BrowserForward")
    ∷ (168, "BrowserRefresh")
    ∷ (169, "BrowserStop")
    ∷ (170, "BrowserSearch")
    ∷ (171, "BrowserFavorites")
    ∷ (172, "BrowserHome")
    ∷ (173, "AudioVolumeMute")
    ∷ (174, "AudioVolumeDown")
    ∷ (175, "AudioVolumeUp")
    ∷ (176, "MediaTrackNext")
    ∷ (177, "MediaTrackPrevious")
    ∷ (178, "MediaStop")
    ∷ (179, "MediaPlayPause")
    ∷ (180, "LaunchMail")
    ∷ (181, "MediaSelect")
    ∷ (182, "LaunchApp1")
    ∷ (183, "LaunchApp2")
    ∷ (225, "AltRight")
    ∷ []
